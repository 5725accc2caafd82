-- ===== src/Volumes/Links.antt =====
-- controllers/volumes: the symbolic link at each path of a volume, which leads through
-- "..data/current".
pub mod Follow
use kube_pet_node.Prelude.{ℕ, zero, suc, ◌+◌, List, [], ◌∷◌, ◌++◌, ◌==◌, if◌then◌else◌}
use kube_pet_node.Prelude.Text.{Text, str}
use kube_pet_node.Volumes.Archive.{Entry}

-- strings.Count of one byte
unfoldable pub count : ℕ → Text → ℕ
count c [] = 0
count c (d ∷ s) = let rest = count c s in if d == c then rest + 1 else rest

-- strings.Repeat
unfoldable pub repeat : Text → ℕ → Text
repeat s zero = []
repeat s (suc n) = s ++ repeat s n

unfoldable pub link_target : Text → Text
unfolding count repeat
link_target path = repeat (str "../") (count b'/' path) ++ (str "..data/current/" ++ path)

unfoldable pub path_link : Text → Entry
unfolding link_target
path_link path = Entry.sym_link path (link_target path)

unfoldable pub data_path : Text → Text → Text
data_path res_version path = str "..data/" ++ (res_version ++ (b'/' ∷ path))

abbrev pub current_link : Text → Entry
current_link res_version = Entry.sym_link (str "..data/current") res_version

abbrev pub default_mode : ℕ
default_mode = 420
