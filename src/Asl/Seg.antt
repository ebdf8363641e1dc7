-- ===== src/Asl/Seg.antt =====
-- List segments through the links of the descriptors.
use progetto_so.Base.{◌≡◌, true, false, List, [], ◌∷◌, ◌++◌, arith, Ptr, null, update, has}
use mathlib.Core.Path.{subst}
use progetto_so.Pcb.Ring.{Distinct, has-append}
use progetto_so.Asl.Find.{end_of}
use progetto_so.Asl.Entries.{Seg, IsFree}

abbrev pub first : List Ptr → Ptr → Ptr
first [] e = e
first (d ∷ ds) e = d

pub end_of-has : (p : Ptr) (us : List Ptr) → has (end_of p us) (p ∷ us) ≡ true
end_of-has p [] = ground arith
end_of-has p (u ∷ us) = ground (arith, end_of-has u us)

module _ (nx : Ptr → Ptr) where
  pub Seg-next :
      (p e : Ptr) (us vs : List Ptr) → Seg nx p (us ++ vs) e → nx (end_of p us) ≡ first vs e
  Seg-next p e [] [] c = c
  Seg-next p e [] (v ∷ vs) c = c.0
  Seg-next p e (u ∷ us) vs c = Seg-next u e us vs c.1

  pub Seg-update :
      (q v p e : Ptr) (ds : List Ptr)
      → Seg nx p ds e
      → has q (p ∷ ds) ≡ false
      → Seg (update nx q v) p ds e
  Seg-update q v p e [] c out = ground arith
  Seg-update q v p e (d ∷ ds) c out = (ground arith, Seg-update q v d e ds c.1 (ground arith))

-- A start `d` that is made to point where the old start does takes its place.
Seg-restart :
    (nx : Ptr → Ptr) (p d e : Ptr) (ds : List Ptr)
    → Seg nx p ds e
    → has d ds ≡ false
    → Seg (update nx d (nx p)) d ds e
Seg-restart nx p d e [] c out = ground arith
Seg-restart nx p d e (x ∷ ds) c out = (ground (arith, c.0), Seg-update nx d (nx p) x e ds c.1 out)

module _ (nx : Ptr → Ptr) where
  -- `d` is put in behind the end of `us`.
  pub Seg-insert :
      (p d e : Ptr) (us vs : List Ptr)
      → Seg nx p (us ++ vs) e
      → Distinct (p ∷ us ++ vs)
      → has d (p ∷ us ++ vs) ≡ false
      → Seg (update (update nx d (nx (end_of p us))) (end_of p us) d) p (us ++ d ∷ vs) e
  Seg-insert p d e [] vs c dis out = (
    ground arith,
    Seg-update (update nx d (nx p)) p d d e vs (Seg-restart nx p d e vs c (ground arith))
        (ground arith),
  )
  Seg-insert p d e (u ∷ us) vs c dis out = (
    ground (arith, end_of-has u us, has-append p us vs),
    Seg-insert u d e us vs c.1 dis.1 (ground arith),
  )

  -- `d` is taken out from behind the end of `us`.
  pub Seg-remove :
      (p d e : Ptr) (us vs : List Ptr)
      → Seg nx p (us ++ d ∷ vs) e
      → Distinct (p ∷ us ++ d ∷ vs)
      → Seg (update (update nx (end_of p us) (nx d)) d null) p (us ++ vs) e
  Seg-remove p d e [] vs c dis =
      Seg-update (update nx p (nx d)) d null p e vs (Seg-restart nx d p e vs c.1 (ground arith))
        (ground arith)
  Seg-remove p d e (u ∷ us) vs c dis =
      (ground (arith, end_of-has u us, has-append p us (d ∷ vs)), Seg-remove u d e us vs c.1 dis.1)

pub IsFree-update :
    (nx : Ptr → Ptr) (q v h : Ptr) (ds : List Ptr)
    → IsFree nx h ds
    → has q ds ≡ false
    → IsFree (update nx q v) h ds
IsFree-update nx q v h [] c out = c
IsFree-update nx q v h (d ∷ ds) c out =
    let rest = IsFree-update nx q v (nx d) ds c.1 (ground arith) in
    (c.0, subst (λ t. IsFree (update nx q v) t ds) (ground arith) rest)
