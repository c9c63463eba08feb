-- ===== src/Provider/Vllm/Inject.antt =====
-- internal/provider/vllm/inject.go
use go_ai_proxy.Common.{
  ◌≡◌, refl, Bool, Option, none, some, or_default, if◌then◌else◌, ap, ◌∙◌, sym,
}
use go_ai_proxy.Common.Eq.{nat_eq}
use go_ai_proxy.Common.Text.{Text, lit, text_eq}
use go_ai_proxy.Common.Json.{
  bool, obj, Fields, end, find_field, set_field, as_object, JsonCodec, find_field-set_same,
  find_field-set_field,
}
use go_ai_proxy.Provider.Errors.{other}
use go_ai_proxy.Provider.OpenAi.{Result, ok, err}

abbrev pub kwargs_key : Text
kwargs_key = lit "chat_template_kwargs"

-- What body["chat_template_kwargs"] holds, empty when it is no object.
abbrev pub kwargs_of : Fields → Fields
kwargs_of root = or_default (as_object (find_field kwargs_key root)) end

abbrev pub set_kwarg : Text → Bool → Fields → Fields
set_kwarg key enabled root =
    set_field kwargs_key (obj (set_field key (bool enabled) (kwargs_of root))) root

kwargs_of-set : (kwargs root : Fields) → kwargs_of (set_field kwargs_key (obj kwargs) root) ≡ kwargs
kwargs_of-set kwargs root = rw (find_field-set_same kwargs_key (obj kwargs) root) refl

module _ (json : JsonCodec) where
  abbrev injected : Text → Bool → Option (Option Fields) → Result Text
  injected key enabled none = err (other (lit "decode body"))
  injected key enabled (some root) = ok (json.marshal (set_kwarg key enabled (or_default root end)))

  unfoldable pub inject_chat_template_kwargs : Text → Text → Bool → Result Text
  inject_chat_template_kwargs body key enabled = injected key enabled (json.unmarshal body)

  -- The body of an object becomes that of an object whose chat_template_kwargs have the key set and
  -- every other entry that they had, and whose other entries are those of before.
  pub inject_chat_template_kwargs_lem :
      (body : Text) (root : Fields) (key : Text) (enabled : Bool) (asked : Text)
      → json.unmarshal body ≡ some (some root)
      → (changed : Fields) × (inject_chat_template_kwargs body key enabled
          ≡ ok (json.marshal changed))
        × (find_field asked (kwargs_of changed) ≡ (
            if text_eq key asked then some (bool enabled) else find_field asked (kwargs_of root)))
        × (find_field asked changed ≡ (
            if text_eq kwargs_key asked
            then some (obj (kwargs_of changed))
            else find_field asked root))
  unfolding inject_chat_template_kwargs
  inject_chat_template_kwargs_lem body root key enabled asked h =
      let kwargs = kwargs_of root in
      let set = set_field key (bool enabled) kwargs in
      let there = kwargs_of-set set root in
      (
        set_kwarg key enabled root,
        ap (injected key enabled) h,
        ap (find_field asked) there ∙ find_field-set_field asked key (bool enabled) kwargs,
        find_field-set_field asked kwargs_key (obj set) root
            ∙ ap (λ k. if text_eq kwargs_key asked then some (obj k) else find_field asked root)
                (sym there),
      )
