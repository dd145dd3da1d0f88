-- ===== src/DeepCopy/Quotas.antt =====
-- The deep copies of TokenQuota objects and their parts are deep.

use kovern.Memory.{copy_pointer, if_set, copy_items, pure}
use kovern.Memory.Layouts.{plain, address, pair, optional, slice, items}
use kovern.Memory.Copies.{
  Copies, next, joined, pure-Copies, copy_pointer-Copies, if_set-Copies, if_set-Copies-slice,
  copy_items-Copies,
}
use kovern.DeepCopy.{
  Copiers, billing_scope_into, token_quota_spec_into, token_quota_status_into, token_quota_into,
  token_quota_list_into,
}
use kovern.DeepCopy.Objects.{External}
use kovern.DeepCopy.Cells.{time_slot, model_limits_slot, conditions_slot, quotas_slot}
use kovern.DeepCopy.Views.{
  Views, AreDeep, billing_scope, token_quota_spec, token_quota_status, conditions_slice,
  token_quota, token_quota_list,
}

module _ {k : External} {Q D L C S : Type 0} (v : Views k Q D L C S) (c : Copiers k)
    (deep : AreDeep v c) where
  pub billing_scope_into-Copies : Copies (billing_scope v) (billing_scope_into c)
  unfolding billing_scope_into
  billing_scope_into-Copies h x t (p, q) =
      let (r, first) = deep.quantity h x.max_financial_budget t.max_financial_budget q in
      (
        record {
          copy = record x { max_financial_budget = r.copy };
          after = r.after;
          extends = r.extends;
          fresh = (p, r.fresh);
        },
        rw first,
      )

  pub conditions-Copies :
      Copies (conditions_slice v) (if_set (copy_pointer conditions_slot (copy_items c.condition)))
  conditions-Copies = if_set-Copies-slice (address conditions_slot (items v.condition)) _ (
      copy_pointer-Copies conditions_slot (items v.condition) (copy_items c.condition)
        (copy_items-Copies v.condition c.condition deep.condition))

  pub time-Copies : Copies (optional (address time_slot plain)) (if_set c.time)
  time-Copies = if_set-Copies (address time_slot plain) c.time deep.time

  limits-Copies :
      Copies
        (slice (address (model_limits_slot {k = k}) plain))
        (if_set (copy_pointer (model_limits_slot {k = k}) pure))
  limits-Copies =
      if_set-Copies-slice (address (model_limits_slot {k = k}) plain) _
        (copy_pointer-Copies (model_limits_slot {k = k}) plain pure pure-Copies)

  pub token_quota_spec_into-Copies : Copies (token_quota_spec v) (token_quota_spec_into c)
  unfolding token_quota_spec_into
  token_quota_spec_into-Copies h x t (p, (scope, limits)) =
      let l = slice (address (model_limits_slot {k = k}) plain) in
      let (a, first) = billing_scope_into-Copies h x.billing_scope t.billing_scope scope in
      let (b, second) = next (billing_scope v) l _ limits-Copies x.limits t.limits a limits in
      let ab = joined (billing_scope v) l a b in
      (
        record {
          copy = record x { billing_scope = a.copy; limits = b.copy };
          after = b.after;
          extends = ab.extends;
          fresh = (p, ab.fresh);
        },
        rw (first, second),
      )

  pub token_quota_status_into-Copies : Copies (token_quota_status v) (token_quota_status_into c)
  unfolding token_quota_status_into
  token_quota_status_into-Copies h x t (p, (updated, (renewal, conditions))) =
      let l = optional (address time_slot plain) in
      let m = conditions_slice v in
      let (a, first) = time-Copies h x.last_updated t.0.last_updated updated in
      let (b, second) = next l l _ time-Copies x.next_renewal t.0.next_renewal a renewal in
      let ab = joined l l a b in
      let (d, third) = next (pair l l) m _ conditions-Copies x.conditions t.1 ab conditions in
      let abd = joined (pair l l) m ab d in
      let ((u, r), q) = abd.fresh in
      (
        record {
          copy = record x { last_updated = a.copy; next_renewal = b.copy; conditions = d.copy };
          after = d.after;
          extends = abd.extends;
          fresh = (p, (u, (r, q)));
        },
        rw (first, second, third),
      )

  pub token_quota_into-Copies : Copies (token_quota v) (token_quota_into c)
  unfolding token_quota_into
  token_quota_into-Copies h x t (p, (object_meta, (spec, status))) =
      let l = v.object_meta in
      let m = token_quota_spec v in
      let n = token_quota_status v in
      let (a, first) = deep.object_meta h x.object_meta t.1 object_meta in
      let (b, second) = next l m _ token_quota_spec_into-Copies x.spec t.2 a spec in
      let ab = joined l m a b in
      let (d, third) =
        next (pair l m) n _ token_quota_status_into-Copies x.status (t.3, t.4) ab status in
      let abd = joined (pair l m) n ab d in
      let ((o, s), u) = abd.fresh in
      (
        record {
          copy = record x { object_meta = a.copy; spec = b.copy; status = d.copy };
          after = d.after;
          extends = abd.extends;
          fresh = (p, (o, (s, u)));
        },
        rw (first, second, third),
      )

  pub token_quota_list_into-Copies : Copies (token_quota_list v) (token_quota_list_into c)
  unfolding token_quota_list_into
  token_quota_list_into-Copies h x t (p, (list_meta, quotas)) =
      let l = v.list_meta in
      let m = slice (address quotas_slot (items (token_quota v))) in
      let (a, first) = deep.list_meta h x.list_meta t.1 list_meta in
      let (b, second) =
        next l m _
          (if_set-Copies-slice (address quotas_slot (items (token_quota v))) _ (
            copy_pointer-Copies quotas_slot (items (token_quota v)) _
              (copy_items-Copies (token_quota v) _ token_quota_into-Copies)))
          x.items t.2 a quotas in
      let ab = joined l m a b in
      (
        record {
          copy = record x { list_meta = a.copy; items = b.copy };
          after = b.after;
          extends = ab.extends;
          fresh = (p, ab.fresh);
        },
        rw (first, second),
      )
