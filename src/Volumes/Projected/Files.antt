-- ===== src/Volumes/Projected/Files.antt =====
-- controllers/volumes/vol-projected.go: what the archive of a projected volume holds.
use mathlib.Core.List.{Memᴰ, Permᴰ}
use mathlib.Core.List.Memᴰ
use mathlib.Core.List.Permᴰ
use kube_pet_node.Prelude.{List}
use kube_pet_node.Prelude.Text.{Text}
use kube_pet_node.Prelude.Assoc.{Assoc}
