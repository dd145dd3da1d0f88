-- ===== src/Tests/Copies.antt =====
-- Deep copies of Kubernetes' own types, for the tests: metadata is a pointer, so that its copy has work
-- to do.
use kovern.Prelude.{ℕ, some, none, refl}
use kovern.Memory.{Slot, copy_pointer, pure}
use kovern.Memory.Layouts.{plain, address}
use kovern.Memory.Copies.{pure-Copies, copy_pointer-Copies}
use kovern.DeepCopy.{Copiers}
use kovern.DeepCopy.Objects.{External}
use kovern.DeepCopy.Cells.{Cell, inner_cell, time_slot}
use kovern.DeepCopy.Views.{Views, AreDeep}
use kovern.DeepCopy.Package.{CopiesAreDeep, package-CopiesAreDeep}

abbrev pub external : External
external = record {
  Quantity = ℕ;
  ObjectMeta = ℕ;
  ListMeta = ℕ;
  TypeMeta = ℕ;
  Condition = ℕ;
  LabelSelector = ℕ;
  Inner = ℕ;
}

abbrev pub inner_slot : Slot (Cell external) ℕ
inner_slot = record {
  hold = inner_cell;
  read = λ c. elim c [ inner_cell x ↦ some x | _ ↦ none ];
  read-hold = λ x. refl;
}

abbrev pub views : Views external ℕ ℕ ℕ ℕ ℕ
views = record {
  quantity = plain;
  object_meta = address inner_slot plain;
  list_meta = plain;
  condition = plain;
  label_selector = plain;
}

abbrev pub copiers : Copiers external
copiers = record {
  quantity = pure;
  object_meta = copy_pointer inner_slot pure;
  list_meta = pure;
  condition = pure;
  label_selector = pure;
  time = copy_pointer time_slot pure;
}

pub copiers-AreDeep : AreDeep views copiers
copiers-AreDeep = record {
  quantity = pure-Copies;
  object_meta = copy_pointer-Copies inner_slot plain pure pure-Copies;
  list_meta = pure-Copies;
  condition = pure-Copies;
  label_selector = pure-Copies;
  time = copy_pointer-Copies time_slot plain pure pure-Copies;
}

package-CopiesAreDeep_example : CopiesAreDeep views copiers
package-CopiesAreDeep_example = package-CopiesAreDeep views copiers copiers-AreDeep
