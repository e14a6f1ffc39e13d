-- ===== src/Netem/Presets.antt =====
-- The preset that a text names, and the texts that name none.
use testprotocols.Prelude.{
  ℕ, ◌≡◌, refl, ◌≢◌, inl, inr, Bool, true, false, none, some, List, [], ◌∷◌, Bool-cases,
}
use testprotocols.Netem.{
  NetemPreset, clean, dsl, cable, lte, three_g, satellite, degraded, lossy, NetemController,
  preset_members, preset_profile, apply_preset, codes, Action,
}
use testprotocols.Exec.{continue, Outcome, ret, exc, out_of_fuel, Action, pure, ◌>>=◌, ◌>>◌}
use testprotocols.Exec.Failure.{value_error}
use testprotocols.Compat.Coerce.{member_given, text_given, of_text, warned_unless, coerce_enum}
use testprotocols.Prelude.Text.Split.{text_eq, text_eq_sound}

-- The documented name of a preset.
abbrev pub preset_text : NetemPreset → List ℕ
preset_text clean = codes "clean"
preset_text dsl = codes "dsl"
preset_text cable = codes "cable"
preset_text lte = codes "lte"
preset_text three_g = codes "3g"
preset_text satellite = codes "satellite"
preset_text degraded = codes "degraded"
preset_text lossy = codes "lossy"

unequal :
    (p : NetemPreset) (text : List ℕ)
    → ((q : NetemPreset) → preset_text q ≢ text)
    → text_eq (preset_text p) text ≡ false
unequal p text h = elim (Bool-cases (text_eq (preset_text p) text)) [
  | inl e ↦ absurd (h p (text_eq_sound (preset_text p) text e))
  | inr e ↦ e
]

-- The warning for a text that the caller wrote.
abbrev pub noticed :
    {W A : Type 0} → (warn : Action W (Unit {0})) → (is_default : Bool) → Action W A → Action W A
noticed warn true action = action
noticed warn false action = warn >> action

abbrev pub all_presets : List NetemPreset
all_presets = clean ∷ dsl ∷ cable ∷ lte ∷ three_g ∷ satellite ∷ degraded ∷ lossy ∷ []

abbrev noticed-bind_goal : {W A B : Type 0} → Outcome A → B → (B → Action W (Unit {0})) → W → Type 0
noticed-bind_goal r e f w =
    (let (r', w') = continue r (λ _. pure e) w in continue r' f w') ≡ continue r (λ _. f e) w

then-pure :
    {W A B : Type 0} (r : Outcome A) (e : B) (f : B → Action W (Unit {0})) (w : W)
    → noticed-bind_goal r e f w
then-pure (ret a) e f w = refl
then-pure (exc x) e f w = refl
then-pure out_of_fuel e f w = refl

of_text-preset : (p : NetemPreset) → of_text (preset_text p) preset_members ≡ some p
unfolding of_text
of_text-preset clean = refl
of_text-preset dsl = refl
of_text-preset cable = refl
of_text-preset lte = refl
of_text-preset three_g = refl
of_text-preset satellite = refl
of_text-preset degraded = refl
of_text-preset lossy = refl

of_text-unknown :
    (text : List ℕ)
    → ((p : NetemPreset) → preset_text p ≢ text)
    → of_text text preset_members ≡ none
unfolding of_text
of_text-unknown text h =
    rw
      (
        unequal clean text h,
        unequal dsl text h,
        unequal cable text h,
        unequal lte text h,
        unequal three_g text h,
        unequal satellite text h,
        unequal degraded text h,
        unequal lossy text h,
      )
      refl

module _ {W : Type 0} (warn : Action W (Unit {0})) (netem : NetemController W) where
  coerced-noticed :
      (e : NetemPreset) (is_default : Bool) (f : NetemPreset → Action W (Unit {0})) (w : W)
      → (warned_unless warn is_default e >>= f) w ≡ noticed warn is_default (f e) w
  coerced-noticed e true f w = refl
  coerced-noticed e false f w = let (r, w') = warn w in then-pure r e f w'

  -- A preset that is given by its documented name, as the released default or as the caller's text,
  -- does what the member does; only the caller's text warns first.
  pub apply_preset-text :
      (p : NetemPreset) (is_default : Bool) (w : W)
      → apply_preset warn netem (text_given (preset_text p) is_default) w
        ≡ noticed warn is_default (apply_preset warn netem (member_given p)) w
  unfolding apply_preset coerce_enum
  apply_preset-text p is_default w =
      rw (of_text-preset p)
        (coerced-noticed p is_default (λ q. netem.set_impairment_profile (preset_profile q)) w)

  -- A text that is no preset's name raises a `ValueError`, with no warning and no call of the driver.
  pub apply_preset-unknown :
      (text : List ℕ) (is_default : Bool) (w : W)
      → ((p : NetemPreset) → preset_text p ≢ text)
      → apply_preset warn netem (text_given text is_default) w ≡ (exc value_error, w)
  unfolding apply_preset coerce_enum
  apply_preset-unknown text is_default w h = rw (of_text-unknown text h) refl
