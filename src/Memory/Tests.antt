-- ===== src/Memory/Tests.antt =====
-- `memset` at small inputs.
use sbunix_public.Base.{◌≡◌, refl, [], ◌∷◌, map}
use sbunix_public.Memory.{memset}
use sbunix_public.Memory.Laws.{memset_range}

memset_run : map (memset (λ a. a) 3 300 2) (2 ∷ 3 ∷ 4 ∷ 5 ∷ []) ≡ 2 ∷ 44 ∷ 44 ∷ 5 ∷ []
unfolding memset
memset_run = refl

memset_of_range : memset (λ a. a) 3 300 2 4 ≡ 44
memset_of_range = memset_range (λ a. a) 3 300 2 4
