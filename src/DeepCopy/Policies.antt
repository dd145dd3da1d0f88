-- ===== src/DeepCopy/Policies.antt =====
-- The deep copies of LivelockPolicy objects and their parts are deep.
use kovern.Prelude.{Option}
use kovern.Memory.{Slot, copy_pointer, if_set, pure}
use kovern.Memory.Layouts.{Layout, plain, address, pair, optional, slice, items}
use kovern.Memory.Copies.{
  Copies, next, joined, pure-Copies, copy_pointer-Copies, if_set-Copies, if_set-Copies-slice,
  copy_items-Copies,
}
use kovern.DeepCopy.{
  Copiers, detection_criteria_into, remediation_spec_into, livelock_policy_spec_into,
  livelock_policy_status_into, livelock_policy_into, livelock_policy_list_into,
}
use kovern.DeepCopy.Objects.{External, Pointer}
use kovern.DeepCopy.Cells.{
  Cell, time_slot, policies_slot, otel_criteria_slot, semantic_criteria_slot, fault_config_slot,
}
use kovern.DeepCopy.Views.{
  Views, AreDeep, detection_criteria, remediation_spec, livelock_policy_spec,
  livelock_policy_status, conditions_slice, livelock_policy, livelock_policy_list,
}
use kovern.DeepCopy.Quotas.{conditions-Copies, time-Copies}

module _ {k : External} where
  -- A pointer to a structure without pointers, which may be nil.
  abbrev to_plain : {A : Type 0} → Slot (Cell k) A → Layout (Cell k) Pointer (Option A)
  to_plain s = optional (address s plain)

  to_plain-Copies :
      {A : Type 0} (s : Slot (Cell k) A) → Copies (to_plain s) (if_set (copy_pointer s pure))
  to_plain-Copies s =
      if_set-Copies (address s plain) _ (copy_pointer-Copies s plain pure pure-Copies)

  pub detection_criteria_into-Copies :
      Copies (detection_criteria {k = k}) (detection_criteria_into {k = k})
  unfolding detection_criteria_into
  detection_criteria_into-Copies h x t (otel, semantic) =
      let l = to_plain otel_criteria_slot in
      let m = to_plain semantic_criteria_slot in
      let (a, first) = to_plain-Copies otel_criteria_slot h x.otel t.otel otel in
      let (b, second) =
        next l m _ (to_plain-Copies semantic_criteria_slot) x.semantic t.semantic a semantic in
      let ab = joined l m a b in
      (
        record {
          copy = record x { otel = a.copy; semantic = b.copy };
          after = b.after;
          extends = ab.extends;
          fresh = ab.fresh;
        },
        rw (first, second),
      )

  pub remediation_spec_into-Copies :
      Copies (remediation_spec {k = k}) (remediation_spec_into {k = k})
  unfolding remediation_spec_into
  remediation_spec_into-Copies h x t (p, fault) =
      let (a, first) = to_plain-Copies fault_config_slot h x.fault_config t.fault_config fault in
      (
        record {
          copy = record x { fault_config = a.copy };
          after = a.after;
          extends = a.extends;
          fresh = (p, a.fresh);
        },
        rw first,
      )

module _ {k : External} {Q D L C S : Type 0} (v : Views k Q D L C S) (c : Copiers k)
    (deep : AreDeep v c) where
  pub livelock_policy_spec_into-Copies :
      Copies (livelock_policy_spec v) (livelock_policy_spec_into c)
  unfolding livelock_policy_spec_into
  livelock_policy_spec_into-Copies h x t (selector, (detection, remediation)) =
      let l = v.label_selector in
      let m = detection_criteria in
      let n = remediation_spec in
      let (a, first) = deep.label_selector h x.selector t.selector selector in
      let (b, second) =
        next l m _ detection_criteria_into-Copies x.detection t.detection a detection in
      let ab = joined l m a b in
      let (d, third) =
        next (pair l m) n _ remediation_spec_into-Copies x.remediation t.remediation ab
          remediation in
      let abd = joined (pair l m) n ab d in
      let ((s, o), r) = abd.fresh in
      (
        record {
          copy = record x { selector = a.copy; detection = b.copy; remediation = d.copy };
          after = d.after;
          extends = abd.extends;
          fresh = (s, (o, r));
        },
        rw (first, second, third),
      )

  pub livelock_policy_status_into-Copies :
      Copies (livelock_policy_status v) (livelock_policy_status_into c)
  unfolding livelock_policy_status_into
  livelock_policy_status_into-Copies h x t (p, (last, conditions)) =
      let l = optional (address time_slot plain) in
      let m = conditions_slice v in
      let (a, first) = time-Copies v c deep h x.last_detection t.0.last_detection last in
      let (b, second) = next l m _ (conditions-Copies v c deep) x.conditions t.1 a conditions in
      let ab = joined l m a b in
      (
        record {
          copy = record x { last_detection = a.copy; conditions = b.copy };
          after = b.after;
          extends = ab.extends;
          fresh = (p, ab.fresh);
        },
        rw (first, second),
      )

  pub livelock_policy_into-Copies : Copies (livelock_policy v) (livelock_policy_into c)
  unfolding livelock_policy_into
  livelock_policy_into-Copies h x t (p, (object_meta, (spec, status))) =
      let l = v.object_meta in
      let m = livelock_policy_spec v in
      let n = livelock_policy_status v in
      let (a, first) = deep.object_meta h x.object_meta t.1 object_meta in
      let (b, second) = next l m _ livelock_policy_spec_into-Copies x.spec t.2 a spec in
      let ab = joined l m a b in
      let (d, third) =
        next (pair l m) n _ livelock_policy_status_into-Copies x.status (t.3, t.4) ab status in
      let abd = joined (pair l m) n ab d in
      let ((o, s), u) = abd.fresh in
      (
        record {
          copy = record x { object_meta = a.copy; spec = b.copy; status = d.copy };
          after = d.after;
          extends = abd.extends;
          fresh = (p, (o, (s, u)));
        },
        rw (first, second, third),
      )

  pub livelock_policy_list_into-Copies :
      Copies (livelock_policy_list v) (livelock_policy_list_into c)
  unfolding livelock_policy_list_into
  livelock_policy_list_into-Copies h x t (p, (list_meta, policies)) =
      let l = v.list_meta in
      let m = slice (address policies_slot (items (livelock_policy v))) in
      let (a, first) = deep.list_meta h x.list_meta t.1 list_meta in
      let (b, second) =
        next l m _
          (if_set-Copies-slice (address policies_slot (items (livelock_policy v))) _ (
            copy_pointer-Copies policies_slot (items (livelock_policy v)) _
              (copy_items-Copies (livelock_policy v) _ livelock_policy_into-Copies)))
          x.items t.2 a policies in
      let ab = joined l m a b in
      (
        record {
          copy = record x { list_meta = a.copy; items = b.copy };
          after = b.after;
          extends = ab.extends;
          fresh = (p, ab.fresh);
        },
        rw (first, second),
      )
