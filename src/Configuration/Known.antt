-- ===== src/Configuration/Known.antt =====
-- Where the configuration in use comes from.
use bbjsensescada.Common.{
  ◌≡◌, refl, ap, ◌∙◌, true, List, [], ◌∷◌, ◌++◌, Option, none, some, Bool-cases, inl, inr, ◌⊎◌,
}
use bbjsensescada.Python.{Error, Result, ok, err, Result-cases}
use bbjsensescada.Python.Value.{Value, truthy}
use bbjsensescada.Modbus.{get_value}
use bbjsensescada.Configuration.{
  Environment, Site, Meets, installed, with_rules, refresh_turn, refresh_turns, is_due,
  download_configuration, write_config_cache,
}
use bbjsensescada.Configuration.Restart.{downloaded_loaded}

-- The configuration was there before the turns, or one of them got it from the cloud as a success.
abbrev pub IsKnown : Site → List Meets → Value → Type 0
IsKnown s ms c =
    (c ≡ s.configuration)
    ⊎ ((before after : List Meets) × (m : Meets) × (ms ≡ before ++ m ∷ after)
        × (download_configuration m.response ≡ ok c)
        × (truthy c ≡ true))

with_rules-configuration :
    (E : Environment) (s : Site) (r : Result Value)
    → (with_rules E s r).configuration ≡ s.configuration
with_rules-configuration E s (ok v) = refl
with_rules-configuration E s (err e) = refl

installed-configuration :
    (E : Environment) (disk : Option Error) (s : Site) (c : Value)
    → (installed E disk s (ok c)).configuration ≡ c
unfolding installed write_config_cache
installed-configuration E none s c = with_rules-configuration E _ (get_value "alarm_rules" c)
installed-configuration E (some e) s c = refl

refresh_turn-IsKnown :
    (E : Environment) (m : Meets) (s : Site)
    → ((refresh_turn E m s).configuration ≡ s.configuration)
      ⊎ (download_configuration m.response ≡ ok (refresh_turn E m s).configuration)
unfolding refresh_turn
refresh_turn-IsKnown E m s = elim (Bool-cases (is_due E s m.now)) [
  | inr early ↦ rw early (inl refl)
  | inl due ↦ elim (Result-cases (download_configuration m.response)) [
    | inl (c, got) ↦ rw (due, got, installed-configuration) (inr refl)
    | inr (e, failed) ↦ rw (due, failed, installed) (inl refl)
  ]
]

IsKnown-later :
    (E : Environment) (m : Meets) (ms : List Meets) (s : Site) (c : Value)
    → IsKnown (refresh_turn E m s) ms c
    → IsKnown s (m ∷ ms) c
IsKnown-later E m ms s c (inr (before, after, n, split, got, full)) =
    inr (m ∷ before, after, n, ap (λ ns. m ∷ ns) split, got, full)
IsKnown-later E m ms s c (inl same) = elim (refresh_turn-IsKnown E m s) [
  | inl kept ↦ inl (same ∙ kept)
  | inr got ↦
      let got' : download_configuration m.response ≡ ok c = rw same got in
      inr ([], ms, m, refl, got', downloaded_loaded m.response c got')
]

-- Whatever the cloud and the disk do, the configuration in use is the one of the start or one that the
-- cloud sent as a success, and such a one is not empty: no failed or empty answer replaces it.
pub refresh_turns-IsKnown :
    (E : Environment) (ms : List Meets) (s : Site)
    → IsKnown s ms (refresh_turns E ms s).configuration
refresh_turns-IsKnown E [] s = inl refl
refresh_turns-IsKnown E (m ∷ ms) s =
    IsKnown-later E m ms s _ (refresh_turns-IsKnown E ms (refresh_turn E m s))
