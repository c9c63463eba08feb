-- ===== src/Provider/Vllm/Laws.antt =====
-- internal/provider/vllm/provider.go: the checks of capabilities at the start and later.
use mathlib.Core.List.{map}
use mathlib.Core.Path.{subst}
use go_ai_proxy.Common.{
  ◌≡◌, ◌≢◌, refl, Bool, true, false, not, ◌&&◌, Option, List, [], ◌∷◌, arith, is_nil, keep, all, ap,
  ◌∙◌, inl, inr, Bool-cases,
}
use go_ai_proxy.Common.Text.{Text}
use go_ai_proxy.Common.Json.{JsonCodec}
use go_ai_proxy.Domain.{Model}
use go_ai_proxy.Provider.OpenAi.{
  Result, ok, err, ◌>>=◌, >>=-eq-ok, if_err-eq-ok, ok_injective, Result-cases, RoundTrip,
}
use go_ai_proxy.Provider.OpenAi.Client.{HttpCall}
use go_ai_proxy.Provider.Vllm.{
  Config, Vllm, declared, attach, validate, with_fallback, discover_models, models, unprimed, new,
  with_default_key,
}

validate_strict :
    (cfg : Config) (ms : List Model)
    → all (declared cfg) ms ≡ true
    → validate cfg false ms ≡ ok (map (attach cfg) ms)
unfolding validate
validate_strict cfg [] h = refl
validate_strict cfg (m ∷ ms) h = ground (arith, validate_strict cfg ms)

validate_refuses :
    (cfg : Config) (ms xs : List Model)
    → all (declared cfg) ms ≡ false
    → validate cfg false ms ≢ ok xs
unfolding validate
validate_refuses cfg [] xs h e = ground arith
validate_refuses cfg (m ∷ ms) xs h e = elim (Result-cases (validate cfg false ms)) [
  | inl (ys, r) ↦ ground (arith, r, validate_refuses cfg ms ys)
  | inr (x, r) ↦ ground (arith, r)
]

validate_lenient :
    (cfg : Config) (ms : List Model)
    → validate cfg true ms ≡ ok (map (attach cfg) (keep (declared cfg) ms))
unfolding validate
validate_lenient cfg [] = refl
validate_lenient cfg (m ∷ ms) = ground (arith, validate_lenient cfg ms)

-- The strict check accepts a list of models exactly if each has capabilities declared; the lenient
-- one leaves out those that have none. Both give the others what is declared, in their order.
pub validate_lem :
    (cfg : Config) (ms : List Model)
    → (all (declared cfg) ms ≡ true → validate cfg false ms ≡ ok (map (attach cfg) ms))
      × (all (declared cfg) ms ≡ false → (xs : List Model) → validate cfg false ms ≢ ok xs)
      × (validate cfg true ms ≡ ok (map (attach cfg) (keep (declared cfg) ms)))
validate_lem cfg ms =
    (validate_strict cfg ms, (λ h xs. validate_refuses cfg ms xs h), validate_lenient cfg ms)

keep-declared :
    (cfg : Config) (ms : List Model) → all (declared cfg) ms ≡ true → keep (declared cfg) ms ≡ ms
keep-declared cfg [] h = refl
keep-declared cfg (m ∷ ms) h = ground (arith, keep-declared cfg ms)

-- What New has seen of a provider that it returns.
abbrev WasValid : (Text → Option (List Model)) → (HttpCall → RoundTrip) → Vllm → Type 0
WasValid decode http p =
    (ms : List Model) × (xs : List Model) × (with_fallback p.cfg
        (discover_models decode http p.cfg p.inner)
      ≡ ok ms)
    × (validate p.cfg false ms ≡ ok xs)
    × (p.primed ≡ true)

primed_listing :
    (cfg : Config) (primed : Bool) (found : Result (List Model))
    → primed ≡ true
    → (found >>= validate cfg primed)
      ≡ (found >>= (λ ms. ok (map (attach cfg) (keep (declared cfg) ms))))
primed_listing cfg primed (err e) h = refl
primed_listing cfg primed (ok ms) h = rw h (validate_lenient cfg ms)

-- What the strict check let pass, the lenient one gives whole.
strict_listing :
    (cfg : Config) (ms xs : List Model)
    → validate cfg false ms ≡ ok xs
    → map (attach cfg) (keep (declared cfg) ms) ≡ map (attach cfg) ms
strict_listing cfg ms xs h = elim (Bool-cases (all (declared cfg) ms)) [
  | inl e ↦ ap (map (attach cfg)) (keep-declared cfg ms e)
  | inr e ↦ absurd (validate_refuses cfg ms xs e h)
]

module _ (json : JsonCodec) (decode : Text → Option (List Model))
    (http : HttpCall → RoundTrip) where
  new-WasValid :
      (cfg : Config) (p : Vllm) → new json decode http cfg ≡ ok p → WasValid decode http p
  unfolding new models unprimed
  new-WasValid cfg p h =
      let q = unprimed json (with_default_key cfg) in
      let run = models decode http q in
      let rest = run >>= (λ _. ok (record q { primed = true })) in
      let valid =
        if_err-eq-ok (not cfg.discover && is_nil cfg.models) _ rest p
          (if_err-eq-ok (is_nil cfg.base_url) _ _ p h) in
      let (xs, e, f) = >>=-eq-ok run (λ _. ok (record q { primed = true })) valid in
      let (ms, found, v) =
        >>=-eq-ok (with_fallback q.cfg (discover_models decode http q.cfg q.inner)) _ e in
      subst (WasValid decode http) (ok_injective (record q { primed = true }) p f)
        (ms, xs, found, v, refl)

-- A provider that New returned lists, on every later call, the models with declared capabilities among
-- those that are reported then or else configured; on the listing that New saw these are all of them.
pub new_then_models :
    (json : JsonCodec) (decode : Text → Option (List Model)) (http later : HttpCall → RoundTrip)
    (cfg : Config) (p : Vllm)
    → new json decode http cfg ≡ ok p
    → (models decode later p ≡ (
        with_fallback p.cfg (discover_models decode later p.cfg p.inner)
        >>= (λ ms. ok (map (attach p.cfg) (keep (declared p.cfg) ms)))))
      × ((ms : List Model) × (with_fallback p.cfg (discover_models decode http p.cfg p.inner)
            ≡ ok ms)
          × (models decode http p ≡ ok (map (attach p.cfg) ms)))
unfolding new models
new_then_models json decode http later cfg p h =
    let (ms, xs, found, v, primed) = new-WasValid json decode http cfg p h in
    (
      primed_listing p.cfg p.primed
          (with_fallback p.cfg (discover_models decode later p.cfg p.inner)) primed,
      (
        ms,
        found,
        primed_listing p.cfg p.primed
              (with_fallback p.cfg (discover_models decode http p.cfg p.inner)) primed
            ∙ ap (λ r. r >>= (λ ms. ok (map (attach p.cfg) (keep (declared p.cfg) ms)))) found
            ∙ ap ok (strict_listing p.cfg ms xs v),
      ),
    )
