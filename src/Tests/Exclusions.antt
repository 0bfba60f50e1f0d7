-- ===== src/Tests/Exclusions.antt =====
-- The exclusions of a block in which two certifications of a member expire.
use duniter.Base.{◌≡◌, refl, true, List, [], ◌∷◌, some, none}
use duniter.Base.Int.{◌+ℤ◌, ◌-ℤ◌}
use duniter.Base.Outcome.{done}
use duniter.Generated.{
  GenerationDal, ReducedCert, CertView, IdtyView, has_too_few, exclusion_of,
  gen_exclusion_by_certificatons,
}
use duniter.Generated.Kicked.{gen_exclusion_by_certificatons-lem}
use duniter.Tests.Sample.{conf}
use duniter.Tests.Heads.{root_head}

abbrev two_links : List ReducedCert
two_links =
    record { issuer = "alice"; receiver = "bob"; created_on = 0 }
    ∷ record { issuer = "carol"; receiver = "bob"; created_on = 0 }
    ∷ []

abbrev dal : GenerationDal
dal = record {
  find_expires_on_lte_not_expired_yet = λ time. two_links;
  find_pubkeys_that_should_expire = λ time. [];
  member_of_full = λ key. done true;
  get_valid_links_to = λ key. two_links;
  find_revokes_on_lte_and_revoked_on_is_null = λ time. [];
  get_reduced_ms = λ key. none;
}

abbrev expired_certs : List CertView
expired_certs =
    record { receiver = "bob"; expired_on = 50 }
    ∷ record { receiver = "bob"; expired_on = 50 }
    ∷ record { receiver = "alice"; expired_on = 0 }
    ∷ []

abbrev sample_idties : List IdtyView
sample_idties = record { pub_key = "carol"; member = some true } ∷ []

gen_exclusion_by_certificatons-lem_example :
    gen_exclusion_by_certificatons dal root_head conf expired_certs sample_idties
    ≡ done (exclusion_of root_head "bob" ∷ [])
unfolding has_too_few ◌+ℤ◌ ◌-ℤ◌
gen_exclusion_by_certificatons-lem_example =
    gen_exclusion_by_certificatons-lem dal root_head conf expired_certs sample_idties (λ key. true)
      (refl, (refl, tt))
