-- ===== src/Timer/Generators.antt =====
-- Which timer generator `tmr_init` of src/tmr.c takes.
use tachyon.Prelude.{
  ℕ, ◌≡◌, refl, sym, ap, ◌∙◌, subst, ◌⊎◌, inl, inr, Bool, true, false, ◌&&◌, Option, none, some,
  List, [], ◌∷◌, ◌++◌, if◌then◌else◌, All,
}
use mathlib.Core.List.{append-nil, append_assoc}
use tachyon.Text.{Text}
use tachyon.Time.{Extension, extp_iterate}

-- `tmr_gen_t`, named by a number; what its function `init` returns stands for that function.
pub record Generator : Type 0 where
  pub number : ℕ
  pub supported : Bool
  pub init : Bool

-- The generator that is chosen, and the generators for which `init` was called.
pub record Choosing : Type 0 where
  pub generator : Option Generator
  pub calls : List ℕ

-- `tmr_init_handler`, where the extension's function returns a generator, or NULL as `none`.
pub tmr_init_handler : Choosing → Option Generator → Choosing
tmr_init_handler c none = c
tmr_init_handler c (some p) = elim c.generator [
  | some g ↦ c
  | none ↦
      let called = c.calls ++ p.number ∷ [] in
      if p.supported
      then (if p.init
          then record { generator = some p; calls = called }
          else record c { calls = called })
      else c
]

pub handler_loop : Choosing → List (Option Generator) → Choosing
unfolding tmr_init_handler
handler_loop c [] = c
handler_loop c (p ∷ ps) = handler_loop (tmr_init_handler c p) ps

-- `tmr_init`; it ends with the fatal error where the generator is `none`.
pub tmr_init : Text → List (Option (Extension (Option Generator))) → Choosing
unfolding handler_loop
tmr_init tag table = handler_loop (record { generator = none; calls = [] }) (extp_iterate tag table)

abbrev usable : Option Generator → Bool
usable none = false
usable (some p) = p.supported && p.init

-- The generators whose `init` is called when none of them is chosen.
abbrev tried : List (Option Generator) → List ℕ
tried [] = []
tried (none ∷ ps) = tried ps
tried (some p ∷ ps) = if p.supported then p.number ∷ tried ps else tried ps

-- Of a result, with what the table holds, and the calls before: none can be used, and `init` was
-- called for all that are supported; or the first that can be used is chosen, and nothing was called
-- behind it.
abbrev pub FirstUsable : List ℕ → List (Option Generator) → Choosing → Type 0
FirstUsable calls ps c =
    (All (λ p. usable p ≡ false) ps × (c ≡ record { generator = none; calls = calls ++ tried ps }))
    ⊎ ((g : Generator) × (before : List (Option Generator)) × (after : List (Option Generator))
        × (ps ≡ before ++ some g ∷ after)
        × All (λ p. usable p ≡ false) before
        × (usable (some g) ≡ true)
        × (c ≡ record { generator = some g; calls = calls ++ tried before ++ g.number ∷ [] }))

chosen_stays :
    (g : Generator) (calls : List ℕ) (ps : List (Option Generator))
    → handler_loop (record { generator = some g; calls = calls }) ps
      ≡ record { generator = some g; calls = calls }
unfolding handler_loop tmr_init_handler
chosen_stays g calls [] = refl
chosen_stays g calls (none ∷ ps) = chosen_stays g calls ps
chosen_stays g calls (some p ∷ ps) = chosen_stays g calls ps

-- The calls `more` for the generator `p` in front.
after_more :
    (calls more : List ℕ) (p : Option Generator)
    → ((qs : List (Option Generator)) → tried (p ∷ qs) ≡ more ++ tried qs)
    → (qs : List (Option Generator)) → (calls ++ more) ++ tried qs ≡ calls ++ tried (p ∷ qs)
after_more calls more p adds qs =
    append_assoc calls more (tried qs) ∙ ap (λ (l : List ℕ). calls ++ l) (sym (adds qs))

-- A generator in front that cannot be used, and the calls that it adds.
FirstUsable-skip :
    (calls more : List ℕ) (p : Option Generator) (ps : List (Option Generator)) (c : Choosing)
    → usable p ≡ false
    → ((qs : List (Option Generator)) → tried (p ∷ qs) ≡ more ++ tried qs)
    → FirstUsable (calls ++ more) ps c
    → FirstUsable calls (p ∷ ps) c
FirstUsable-skip calls more p ps c bad adds (inl (all, e)) =
    let same = after_more calls more p adds ps in
    inl ((bad, all), e ∙ ap (λ (l : List ℕ). record { generator = none; calls = l }) same)
FirstUsable-skip calls more p ps c bad adds (inr (g, before, after, split, all, good, e)) =
    let last = g.number ∷ [] in
    let same = after_more calls more p adds before in
    inr (
      g,
      p ∷ before,
      after,
      ap (λ (l : List (Option Generator)). p ∷ l) split,
      (bad, all),
      good,
      e ∙ ap (λ (l : List ℕ). record { generator = some g; calls = l ++ last }) same,
    )

-- Such a generator whose `init` is not called.
FirstUsable-pass :
    (calls : List ℕ) (p : Option Generator) (ps : List (Option Generator)) (c : Choosing)
    → usable p ≡ false
    → ((qs : List (Option Generator)) → tried (p ∷ qs) ≡ tried qs)
    → FirstUsable calls ps c
    → FirstUsable calls (p ∷ ps) c
FirstUsable-pass calls p ps c bad adds h =
    FirstUsable-skip calls [] p ps c bad adds
      (subst (λ (l : List ℕ). FirstUsable l ps c) (sym (append-nil calls)) h)

by_flags :
    (n : ℕ) (supported init : Bool) (calls : List ℕ) (ps : List (Option Generator))
    → ((calls' : List ℕ)
        → FirstUsable calls' ps (handler_loop (record { generator = none; calls = calls' }) ps))
    → FirstUsable calls (some (record { number = n; supported = supported; init = init }) ∷ ps) (
        handler_loop
          (record { generator = none; calls = calls })
          (some (record { number = n; supported = supported; init = init }) ∷ ps))
unfolding handler_loop tmr_init_handler
by_flags n true true calls ps h =
    let g : Generator = record { number = n; supported = true; init = true } in
    inr (
      g,
      [],
      ps,
      refl,
      tt,
      refl,
      chosen_stays g (calls ++ n ∷ []) ps
          ∙ ap (λ (l : List ℕ). record { generator = some g; calls = l ++ n ∷ [] })
              (sym (append-nil calls)),
    )
by_flags n true false calls ps h =
    FirstUsable-skip calls (n ∷ []) (some (record { number = n; supported = true; init = false }))
      ps (handler_loop (record { generator = none; calls = calls ++ n ∷ [] }) ps) refl (λ qs. refl)
      (h (calls ++ n ∷ []))
by_flags n false init calls ps h =
    FirstUsable-pass calls (some (record { number = n; supported = false; init = init })) ps
      (handler_loop (record { generator = none; calls = calls }) ps) refl (λ qs. refl) (h calls)

handler_loop-FirstUsable :
    (calls : List ℕ) (ps : List (Option Generator))
    → FirstUsable calls ps (handler_loop (record { generator = none; calls = calls }) ps)
unfolding handler_loop tmr_init_handler
handler_loop-FirstUsable calls [] =
    inl (tt, ap (λ (l : List ℕ). record { generator = none; calls = l }) (sym (append-nil calls)))
handler_loop-FirstUsable calls (none ∷ ps) =
    FirstUsable-pass calls none ps (handler_loop (record { generator = none; calls = calls }) ps)
      refl (λ qs. refl) (handler_loop-FirstUsable calls ps)
handler_loop-FirstUsable calls (some p ∷ ps) =
    by_flags p.number p.supported p.init calls ps (λ c. handler_loop-FirstUsable c ps)

-- `tmr_init` takes, of the generators that the extensions of the tag give, NULL among them, the first
-- that is supported and whose `init` returns true; it calls `init` for the supported ones up to that,
-- in order, and for none behind it. It ends with the fatal error exactly if there is no such generator,
-- after all calls.
pub tmr_init-FirstUsable :
    (tag : Text) (table : List (Option (Extension (Option Generator))))
    → FirstUsable [] (extp_iterate tag table) (tmr_init tag table)
unfolding tmr_init
tmr_init-FirstUsable tag table = handler_loop-FirstUsable [] (extp_iterate tag table)
