-- ===== src/Registry/Selector.antt =====
-- parseAutoSelector and hasAllCaps of internal/provider/registry.go: `auto:cap1,cap2` selectors.
use go_ai_proxy.Common.{Bool, true, false, List, [], ◌∷◌, is_nil, if◌then◌else◌, ◌≡◌, refl}
use go_ai_proxy.Common.Text.{Text, lit, has_prefix, trim_prefix, trim_space, split, strip_prefix}
use go_ai_proxy.Common.Eq.{contains, list_eq, nat_eq, list_beq}

abbrev pub auto_prefix : Text
auto_prefix = lit "auto:"

abbrev pub is_auto : Text → Bool
is_auto id = has_prefix auto_prefix id

trimmed : List Text → List Text
trimmed [] = []
trimmed (p ∷ ps) =
    let rest = trimmed ps in let t = trim_space p in if is_nil t then rest else t ∷ rest

-- parseAutoSelector; nil is the empty list
unfoldable pub parse_auto_selector : Text → List Text
unfolding trimmed
parse_auto_selector id =
    let s = trim_prefix auto_prefix id in if is_nil s then [] else trimmed (split b',' s)

-- hasAllCaps(have, want); the set that it builds from `have` is asked for membership only
unfoldable pub has_all_caps : List Text → List Text → Bool
has_all_caps have [] = true
has_all_caps have (c ∷ want) =
    let rest = has_all_caps have want in if contains have c then rest else false

parse_tests :
    (parse_auto_selector (lit "auto: vision, ,tools") ≡ lit "vision" ∷ lit "tools" ∷ [])
    × (parse_auto_selector (lit "auto:") ≡ [])
    × (has_all_caps (lit "tools" ∷ lit "vision" ∷ []) (lit "vision" ∷ []) ≡ true)
unfolding parse_auto_selector has_all_caps strip_prefix split trim_space list_beq
parse_tests = (refl, refl, refl)
