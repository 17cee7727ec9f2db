-- ===== src/SEngine/Codes/Families.antt =====
-- The three families of return codes and the translations between them.
use robot_person.Base.{◌≡◌, ◌<◌, ◌⊎◌, Bool, true, false, arith}
use robot_person.SEngine.Codes.{
  Code, is_application, is_function, is_pipeline, variant, to_pipeline, to_function, to_application,
  is_complete,
}

-- what a member of one family is: the tests tell the family, and the translation into the own
-- family is the identity
abbrev pub InFamily : Bool → Bool → Bool → Code → Code → Type 0
InFamily a f p own c =
    (is_application c ≡ a) × (is_function c ≡ f) × (is_pipeline c ≡ p) × (own ≡ c)

-- Every code below 18 lies in exactly one of the three families, and translating it into the
-- family in which it lies leaves it as it is.
pub families :
    (c : Code)
    → c < 18
    → InFamily true false false (to_application c) c
      ⊎ InFamily false true false (to_function c) c
      ⊎ InFamily false false true (to_pipeline c) c
unfolding is_application is_function is_pipeline to_application to_function to_pipeline
families c h = ground arith

-- A translation lands in its family, keeps the variant, and keeps whether the code says that the
-- outer tree has finished.
pub translate_variant :
    (c : Code)
    → (is_pipeline (to_pipeline c) ≡ true)
      × (is_function (to_function c) ≡ true)
      × (is_application (to_application c) ≡ true)
      × (variant (to_pipeline c) ≡ variant c)
      × (variant (to_function c) ≡ variant c)
      × (variant (to_application c) ≡ variant c)
      × (is_complete (to_pipeline c) ≡ is_complete c)
      × (is_complete (to_function c) ≡ is_complete c)
      × (is_complete (to_application c) ≡ is_complete c)
unfolding is_application is_function is_pipeline to_application to_function to_pipeline is_complete
translate_variant c = ground arith
