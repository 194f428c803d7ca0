-- ===== src/Examples/Caches.antt =====
-- src/xengine/cache.h, class CCache, with a limit of two entries.
use mamio.Base.{ℕ, ◌≡◌, refl, inr, [], ◌∷◌, some, arith, nat_key, if◌then◌else◌, ◌==◌}
use mamio.Cache.{Cache, find, add_new, retrieve}
use mamio.Cache.Bound.{retrieve-add_new}

abbrev full : Cache ℕ ℕ
full = record { max_count = 2; entries = (1, 10) ∷ (2, 20) ∷ [] }

abbrev roomy : Cache ℕ ℕ
roomy = record { max_count = 3; entries = (1, 10) ∷ (2, 20) ∷ [] }

-- The oldest entry goes.
add_new_test : (add_new 3 30 full).entries ≡ (2, 20) ∷ (3, 30) ∷ []
unfolding add_new find
add_new_test = refl

retrieve-add_new_example :
    retrieve 2 (add_new 3 30 roomy) ≡ (if 3 == 2 then some 30 else retrieve 2 roomy)
retrieve-add_new_example = retrieve-add_new 3 2 30 roomy (inr (omega arith))
