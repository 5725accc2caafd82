-- ===== src/Identity/System.antt =====
-- controllers/nodeidentity/provider.go: `findosPrettyName`, and the texts that are read from files.
use kube_pet_node.Prelude.{◌-◌, List, [], ◌∷◌, Bool, leb, length, take, drop, ◌==◌, if◌then◌else◌}
use kube_pet_node.Prelude.Text.{Text, str}
use kube_pet_node.Prelude.Split.{starts_with}
use kube_pet_node.Prelude.Result.{Result, ok, err}
use kube_pet_node.Prelude.Run.{Outcome}

-- `text[13 : len(text)-1]`, which panics where the bounds cross.
unfoldable pub pretty_name_of : Text → Outcome Text
pretty_name_of text =
    if leb 14 (length text)
    then Outcome.returned (take (length text - 14) (drop 13 text))
    else Outcome.panicked

-- The lines that the scanner gives before it ends, and then its error, if any.
unfoldable pub scan_pretty_name : Result (Unit {0}) → List Text → Outcome Text
unfolding pretty_name_of
scan_pretty_name (err e) [] = Outcome.failed e
scan_pretty_name (ok _) [] = Outcome.returned []
scan_pretty_name end (text ∷ lines) =
    let rest = scan_pretty_name end lines in
    if starts_with (str "PRETTY_NAME=") text then pretty_name_of text else rest

-- The file's lines, or the error of opening it.
unfoldable pub findos_pretty_name : Result (List Text × Result (Unit {0})) → Outcome Text
unfolding scan_pretty_name
findos_pretty_name (err e) = Outcome.failed e
findos_pretty_name (ok (lines, end)) = scan_pretty_name end lines

trim_left : Text → Text
trim_left [] = []
trim_left (c ∷ s) = let rest = trim_left s in if c == 10 then rest else c ∷ s

only_lines : Text → Bool
only_lines s = length (trim_left s) == 0

-- A byte is kept before one that is not a line feed.
trim_right : Text → Text
unfolding only_lines
trim_right [] = []
trim_right (c ∷ s) = let rest = trim_right s in if only_lines (c ∷ s) then [] else c ∷ rest

-- strings.Trim(s, "\n")
unfoldable pub trim_lines : Text → Text
unfolding trim_left trim_right
trim_lines s = trim_right (trim_left s)
