-- ===== src/Wireguard/Config/Entry.antt =====
-- pkg/wireguard/config.go: a configuration with nothing but a key, printed and read again.
use kube_pet_node.Prelude.{
  ℕ, List, [], ◌∷◌, ◌++◌, append-nil, All, leb, Bool, true, false, ◌&&◌, ◌||◌, ◌==◌, ◌≡◌, ◌≢◌, refl,
  ◌∙◌, arith,
}
use kube_pet_node.Prelude.Text.{Text, str, text_eq}
use kube_pet_node.Prelude.Result.{ok}
use kube_pet_node.Wireguard.Config.{
  PeerConfig, WgQuickConfig, Section, IniFile, Library, stringify, parse_wg_quick_config,
  parse_network_list, parse_peers, parse_loaded, config_with,
}
use kube_pet_node.Wireguard.Material.{blank_config}

-- A letter or a digit.
abbrev pub is_alphanumeric : ℕ → Bool
is_alphanumeric c = (leb 65 c && leb c 90) || ((leb 97 c && leb c 122) || (leb 48 c && leb c 57))

abbrev pub IsName : Text → Type 0
IsName = All (λ c. is_alphanumeric c ≡ true)

-- The alphabet of base64, with its padding.
abbrev pub IsBase64 : Text → Type 0
IsBase64 = All (λ c. (is_alphanumeric c || ((c == 43) || ((c == 47) || (c == 61)))) ≡ true)

abbrev pub entry_text : Text → Text → Text
entry_text key value = str "[Interface]" ++ (10 ∷ (key ++ (str " = " ++ (value ++ 10 ∷ []))))

-- What ini.v1 documents of a file with one section and one entry: the key has the value, no other key
-- has one, and there is no other section.
abbrev pub ReadsEntry : Library → Type 0
ReadsEntry lib =
    (key value : Text)
    → IsName key
    → IsBase64 value
    → (file : IniFile) × (lib.load (entry_text key value) ≡ ok file)
      × (file.interface_section.value key ≡ value)
      × ((other : Text) → other ≢ key → All (λ v. v ≡ []) (file.interface_section.values other))
      × (file.peer_sections ≡ [])

stringify-key :
    (key : Text)
    → text_eq key [] ≡ false
    → stringify (record blank_config { private_key = key }) ≡ entry_text (str "PrivateKey") key
unfolding stringify blank_config text_eq str
stringify-key key full = rw (full, append-nil) refl

private_key-IsName : IsName (str "PrivateKey")
unfolding str
private_key-IsName = ground arith

address-other : str "Address" ≢ str "PrivateKey"
unfolding str
address-other e = cc

module _ (lib : Library) (reads : ReadsEntry lib) where
  parse_network_list-nil :
      (values : List Text) → All (λ v. v ≡ []) values → parse_network_list lib values ≡ ok []
  unfolding parse_network_list
  parse_network_list-nil [] h = refl
  parse_network_list-nil (v ∷ values) (e, hs) = rw e (parse_network_list-nil values hs)

  config_with-key :
      (s : Section) (nets : List Text) (peers : List PeerConfig)
      → (config : WgQuickConfig) × (config_with lib s (ok nets) (ok peers) ≡ ok config)
        × (config.private_key ≡ s.value (str "PrivateKey"))
  unfolding config_with
  config_with-key s nets peers = (_, refl, refl)

  -- The key of a configuration with nothing else is read again from its print.
  pub print-key :
      (key : Text)
      → text_eq key [] ≡ false
      → IsBase64 key
      → (config : WgQuickConfig) × (parse_wg_quick_config lib
            (stringify (record blank_config { private_key = key }))
          ≡ ok config)
        × (config.private_key ≡ key)
  unfolding parse_wg_quick_config parse_loaded parse_peers
  print-key key full plain =
      let (file, loaded, found, others, alone) =
        reads (str "PrivateKey") key private_key-IsName plain in
      let nets : parse_network_list lib (file.interface_section.values (str "Address")) ≡ ok [] =
        parse_network_list-nil _ (others (str "Address") address-other) in
      let (config, parsed, same) = config_with-key file.interface_section [] [] in
      (config, rw (stringify-key key full) (rw loaded (rw nets (rw alone parsed))), same ∙ found)
