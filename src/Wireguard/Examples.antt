-- ===== src/Wireguard/Examples.antt =====
-- The theorem on the node's key, applied to a new node. The library reads a file with one section and
-- one entry, whose key and value are words.
use kube_pet_node.Prelude.{List, [], ◌∷◌, replicate, if◌then◌else◌, false, ◌≡◌, ◌≢◌, refl}
use kube_pet_node.Prelude.Text.{Text, str, text_eq}
use kube_pet_node.Prelude.Int.{ℤ}
use kube_pet_node.Prelude.Split.{split}
use kube_pet_node.Prelude.Result.{ok}
use kube_pet_node.Pods.Storage.{done, denied, wrote}
use kube_pet_node.Wireguard.Config.{Library, Section}
use kube_pet_node.Wireguard.Keys.{KeyLibrary}
use kube_pet_node.Wireguard.Material.{Answers}

-- The words of the second line: a key, "=" and its value.
abbrev second : List Text → Text
second (heading ∷ entry ∷ rest) = entry
second _ = []

abbrev value_in : List Text → Text → Text
value_in (key ∷ equals ∷ value ∷ rest) wanted = if text_eq wanted key then value else []
value_in _ wanted = []

abbrev section_of : List Text → Section
section_of words = record {
  comment = [];
  value = value_in words;
  values = λ key. [];
  must_int = λ key. ℤ.negsuc 0;
}

abbrev words_in : Text → List Text
words_in text = split 32 (second (split 10 text))

abbrev lines : Library
lines = record {
  load = λ text. ok (record { interface_section = section_of (words_in text); peer_sections = [] });
  network_of = λ value. ok value;
}

full : (t : Text) → t ≢ [] → text_eq t [] ≡ false
unfolding text_eq
full [] h = absurd (h refl)
full (c ∷ t) h = refl

-- An encoding that leaves the bytes as they are.
abbrev plain : KeyLibrary
plain = record {
  encode_base64 = λ t. t;
  decode_base64 = λ t. ok t;
  scalar_base_mult = λ sk. sk;
  encode-full = full;
  decode-encode = λ t. refl;
}

abbrev bytes : Text
bytes = 104 ∷ replicate 31 97

abbrev calm : Answers
calm = record { read = done; random = ok bytes; open_for_write = done; write = wrote }

-- A later start, where nothing can be written.
abbrev read_only : Answers
read_only = record {
  read = done;
  random = ok [];
  open_for_write = denied (str "read-only file system");
  write = wrote;
}
