-- ===== src/DeepCopy/Separation.antt =====
-- An object and its deep copy share no memory.
use kovern.Prelude.{ℕ, List, some, ◌≡◌, length}
use kovern.Memory.{if_set}
use kovern.Memory.Layouts.{address}
use kovern.Memory.Copies.{copy_pointer-Copies}
use kovern.Memory.Writes.{Older, Newer, Apart, Copied-Apart}
use kovern.DeepCopy.{
  Copiers, token_quota_into, token_quota_copy, token_quota_copy_object, livelock_policy_list_into,
  livelock_policy_list_copy, livelock_policy_list_copy_object,
}
use kovern.DeepCopy.Objects.{External, a_token_quota, a_livelock_policy_list}
use kovern.DeepCopy.Cells.{Cell, token_quota_slot, livelock_policy_list_slot}
use kovern.DeepCopy.Views.{Views, AreDeep, QuotaView, PolicyView, token_quota, livelock_policy_list}
use kovern.DeepCopy.Quotas.{token_quota_into-Copies}
use kovern.DeepCopy.Policies.{livelock_policy_list_into-Copies}

module _ {k : External} {Q D L C S : Type 0} (v : Views k Q D L C S) (c : Copiers k)
    (deep : AreDeep v c) where
  -- `DeepCopyObject` of a pointer to a TokenQuota gives a pointer to one that stands for the same
  -- object and shares no memory with it: whatever is assigned later through the original, the
  -- copy stands for the object as it was copied, and whatever is assigned through the copy or
  -- to newer cells, the original does. (The deep copies of Kubernetes' own types are deep.)
  pub token_quota_copy_object-Apart :
      (h : List (Cell k)) (p : ℕ) (t : QuotaView k Q D C) (ws vs : List (ℕ × Cell k))
      → (address token_quota_slot (token_quota v)).holds 0 (length h) h p t
      → Older h ws
      → Newer h vs
      → (q : ℕ) × (h' : List (Cell k)) × (token_quota_copy_object c (some p) h
          ≡ some (some (a_token_quota q), h'))
        × Apart (address token_quota_slot (token_quota v)) h ws vs p q h' t
  unfolding token_quota_copy_object token_quota_copy if_set
  token_quota_copy_object-Apart h p t ws vs x old new =
      let l = address token_quota_slot (token_quota v) in
      let (r, made) =
        copy_pointer-Copies token_quota_slot (token_quota v) (token_quota_into c)
          (token_quota_into-Copies v c deep) h p t x in
      (r.copy, r.after, rw made, Copied-Apart l h ws vs p t r x old new)

  -- `DeepCopyObject` of a pointer to a list of LivelockPolicy objects gives a pointer to a list that
  -- stands for the same objects, in their order, and shares no memory with it, down to the
  -- criteria, the fault configuration and the conditions of each policy. (The deep copies of
  -- Kubernetes' own types are deep.)
  pub livelock_policy_list_copy_object-Apart :
      (h : List (Cell k)) (p : ℕ) (t : k.TypeMeta × L × List (PolicyView k D C S))
      (ws vs : List (ℕ × Cell k))
      → (address livelock_policy_list_slot (livelock_policy_list v)).holds 0 (length h) h p t
      → Older h ws
      → Newer h vs
      → (q : ℕ) × (h' : List (Cell k)) × (livelock_policy_list_copy_object c (some p) h
          ≡ some (some (a_livelock_policy_list q), h'))
        × Apart (address livelock_policy_list_slot (livelock_policy_list v)) h ws vs p q h' t
  unfolding livelock_policy_list_copy_object livelock_policy_list_copy if_set
  livelock_policy_list_copy_object-Apart h p t ws vs x old new =
      let l = address livelock_policy_list_slot (livelock_policy_list v) in
      let (r, made) =
        copy_pointer-Copies livelock_policy_list_slot (livelock_policy_list v)
          (livelock_policy_list_into c) (livelock_policy_list_into-Copies v c deep) h p t x in
      (r.copy, r.after, rw made, Copied-Apart l h ws vs p t r x old new)
