-- ===== src/Tests/Flags.antt =====
-- Two labels given to a flag that holds one already.
use cluster_api_provider_bri.Prelude.{◌≡◌, refl, String, none, [], ◌∷◌, trim_space}
use cluster_api_provider_bri.Prelude.Dict.{Dict, lookup}
use cluster_api_provider_bri.Agent.Flags.{to_string, set}
use cluster_api_provider_bri.Agent.Flags.Labels.{AreLabels, AreNew, IsLabel, set-to_string}

abbrev given : Dict String
given = ("site", "apac") ∷ ("cores", "2") ∷ []

abbrev held : Dict String
held = ("rack", "7") ∷ []

site-IsLabel : IsLabel ("site", "apac")
unfolding trim_space
site-IsLabel = record {
  key_plain = (refl, (refl, (refl, (refl, tt))));
  key_whole = (refl, (refl, (refl, (refl, tt))));
  value_whole = (refl, (refl, (refl, (refl, tt))));
  key_trimmed = refl;
  value_trimmed = refl;
}

cores-IsLabel : IsLabel ("cores", "2")
unfolding trim_space
cores-IsLabel = record {
  key_plain = (refl, (refl, (refl, (refl, (refl, tt)))));
  key_whole = (refl, (refl, (refl, (refl, (refl, tt)))));
  value_whole = (refl, tt);
  key_trimmed = refl;
  value_trimmed = refl;
}

given-AreLabels : AreLabels given
given-AreLabels = (site-IsLabel, (cores-IsLabel, tt))

given-AreNew : AreNew held given
unfolding AreNew lookup
given-AreNew = (refl, (refl, tt))

printed : to_string given ≡ "site=apac,cores=2"
unfolding to_string
printed = refl

set-to_string_example :
    set (to_string given) held ≡ (("rack", "7") ∷ ("site", "apac") ∷ ("cores", "2") ∷ [], none)
set-to_string_example =
    set-to_string ("site", "apac") (("cores", "2") ∷ []) held given-AreLabels given-AreNew
