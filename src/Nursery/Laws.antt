-- ===== src/Nursery/Laws.antt =====
-- The laws of the abstract view: what a lookup finds after an assignment and after a removal.
use everett.Base.{◌≡◌, refl, false, List, [], ◌∷◌, none, some, if◌then◌else◌, arith}
use everett.Nursery.{Comparator, less}
use everett.Nursery.Sorted.{
  equivalent, Sorted, After, locate, assign, discard, less_asym, less_of_not_less, less_of_less_not,
}

module _ {ℓ κ} {K : Type ℓ} {V : Type κ} ⦃o : Comparator K⦄ where
  pub locate-After : (k : K) (bs : List (K × V)) → After k bs → locate k bs ≡ none
  unfolding locate
  locate-After k [] h = refl
  locate-After k (b ∷ bs) h = ground arith

  pub locate-assign :
      (j k : K) (v : V) (bs : List (K × V))
      → locate j (assign k v bs) ≡ (if equivalent k j then some v else locate j bs)
  unfolding locate assign
  locate-assign j k v [] = ground arith
  locate-assign j k v (b ∷ bs) = ground (
    arith,
    locate-assign j k v bs,
    less_of_not_less j k b.0,
    less_of_less_not k j b.0,
    less_of_not_less k j b.0,
    less_of_less_not j k b.0,
    less_of_not_less b.0 k j,
    less_of_less_not k b.0 j,
    less_of_not_less b.0 j k,
    less_of_less_not j b.0 k,
    less_asym j k,
    less_asym j b.0,
    less_asym k b.0,
  )

  After-le : (j k : K) (bs : List (K × V)) → less j k ≡ false → After j bs → After k bs
  After-le j k [] n h = tt
  After-le j k (b ∷ bs) n h = (less_of_less_not k j b.0 n h.0, After-le j k bs n h.1)

  pub locate-discard :
      (j k : K) (bs : List (K × V))
      → Sorted bs
      → locate j (discard k bs) ≡ (if equivalent k j then none else locate j bs)
  unfolding locate discard
  locate-discard j k [] h = ground arith
  locate-discard j k (b ∷ bs) h = ground (
    arith,
    locate-discard j k bs h.1,
    After-le b.0 j bs,
    locate-After j bs,
    less_of_not_less j k b.0,
    less_of_less_not k j b.0,
    less_of_not_less k j b.0,
    less_of_less_not j k b.0,
    less_of_not_less b.0 k j,
    less_of_less_not k b.0 j,
    less_of_not_less b.0 j k,
    less_of_less_not j b.0 k,
    less_asym j k,
    less_asym j b.0,
    less_asym k b.0,
  )
