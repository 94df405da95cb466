-- ===== src/Webdav/Admission/Alone.antt =====
-- A request that changes something is alone behind the gate.
use idrive_unlimited.Base.{
  List, Option, Str, [], ap, arith, false, none, refl, some, some_injective, subst, ℕ, ◌++◌, ◌+◌,
  ◌<◌, ◌∙◌, ◌∷◌, ◌≡◌, ◌≤◌,
}
use idrive_unlimited.Webdav.Admission.{
  Documented, Gate, Passage, Passages, Weighted, enter, entered, enters, exclusive, leave, leaves,
  no_passage, open_gate, read_only_method, then_passage, weight,
}

-- The units that requests hold together.
abbrev total_weight : List Str → ℕ
total_weight [] = 0
total_weight (m ∷ ms) = weight m + total_weight ms

weight_positive : (m : Str) → 0 < weight m
unfolding weight
weight_positive m = ground arith

total_weight-append :
    (xs ys : List Str) → total_weight (xs ++ ys) ≡ total_weight xs + total_weight ys
total_weight-append [] ys = omega arith
total_weight-append (x ∷ xs) ys = omega (arith, total_weight-append xs ys)

weightless : (ms : List Str) → total_weight ms ≡ 0 → ms ≡ []
weightless [] h = refl
weightless (m ∷ ms) h = ground (arith, weight_positive m)

weight_whole : (m : Str) → read_only_method m ≡ false → weight m ≡ exclusive
unfolding weight
weight_whole m h = rw h refl

module _ (S : Weighted) (docs : Documented S) where
  -- The units held are those of the requests inside, and no more than there are.
  record Balanced (g : Gate S) : Type 0 where
    sized : docs.size g.sem ≡ exclusive
    counted : docs.held g.sem ≡ total_weight g.inside
    fits : total_weight g.inside ≤ exclusive

  entered-Balanced :
      (m : Str) (g h : Gate S) (o : Option S.Sem)
      → Balanced g
      → S.acquire (weight m) g.sem ≡ o
      → entered S m g o ≡ some h
      → Balanced h
  entered-Balanced m g h none b a e = cc
  entered-Balanced m g h (some s) b a e = subst Balanced (some_injective e) (record {
    sized = docs.size-acquire (weight m) g.sem s a ∙ b.sized;
    counted = docs.held-acquire (weight m) g.sem s a ∙ omega (arith, b.counted);
    fits =
        let now = docs.held-acquire (weight m) g.sem s a in
        let room = docs.fits_acquire (weight m) g.sem s a in
        let whole = docs.size-acquire (weight m) g.sem s a ∙ b.sized in
        omega (arith, now, room, whole, b.counted);
  })

  enter-Balanced : (m : Str) (g h : Gate S) → Balanced g → enter S m g ≡ some h → Balanced h
  unfolding enter
  enter-Balanced m g h b e = entered-Balanced m g h (S.acquire (weight m) g.sem) b refl e

  leave-Balanced :
      (before : List Str) (m : Str) (after : List Str) (g : Gate S)
      → Balanced g
      → g.inside ≡ before ++ m ∷ after
      → Balanced (leave S before m after g)
  unfolding leave
  leave-Balanced before m after g b e =
      let whole : docs.held g.sem ≡ total_weight before + (weight m + total_weight after) =
        b.counted ∙ ap total_weight e ∙ total_weight-append before (m ∷ after) in
      let left = total_weight-append before after in
      let enough : weight m ≤ docs.held g.sem = omega (arith, whole) in
      record {
        sized = docs.size-release (weight m) g.sem enough ∙ b.sized;
        counted = docs.held-release (weight m) g.sem enough ∙ omega (arith, whole, left);
        fits = omega (arith, whole, left, b.counted, b.fits);
      }

  Passage-Balanced : {g h : Gate S} → Balanced g → Passage S g h → Balanced h
  Passage-Balanced b (enters m g h e) = enter-Balanced m g h b e
  Passage-Balanced b (leaves before m after g e) = leave-Balanced before m after g b e

  Passages-Balanced : {h : Gate S} → Passages S (open_gate S) h → Balanced h
  Passages-Balanced (no_passage g) = record {
    sized = docs.size-new exclusive;
    counted = docs.held-new exclusive;
    fits = omega arith;
  }
  Passages-Balanced (then_passage p s) = Passage-Balanced (Passages-Balanced p) s

  -- From the start of the handler on, whatever requests enter and leave, a request whose method is
  -- none of GET, HEAD, PROPFIND and OPTIONS is the only one behind the semaphore, if the
  -- semaphore does what its package documents.
  pub Passages-alone :
      {g : Gate S}
      → Passages S (open_gate S) g
      → (before : List Str) (method : Str) (after : List Str) → g.inside ≡ before ++ method ∷ after
      → read_only_method method ≡ false
      → (before ≡ []) × (after ≡ [])
  Passages-alone p before m after e writes =
      let b = Passages-Balanced p in
      let sum = ap total_weight e ∙ total_weight-append before (m ∷ after) in
      let all = weight_whole m writes in
      (
        weightless before (omega (arith, sum, all, b.fits)),
        weightless after (omega (arith, sum, all, b.fits)),
      )
