-- ===== src/Webdav/Aliases/RoundTrip.antt =====
-- A device that is shown under an alias is found again by it.
use mathlib.Core.List.{Memᴰ}
use mathlib.Core.List.Memᴰ
use idrive_unlimited.Base.{
  =s_iff, Bool, Bool-cases, List, Option, Str, [], ap, arith, false, if◌then◌else◌, inl, inr, none,
  refl, some, subst, sym, true, ℕ, ◌+◌, ◌<◌, ◌=s◌, ◌∙◌, ◌∷◌, ◌≡◌, ◌≤◌, ◌⊎◌,
}
use idrive_unlimited.Evs.Types.{DeviceMeta, Node}
use idrive_unlimited.Webdav.Aliases.{
  Candidate, RootAliases, assign, build_root_aliases, candidate_count, device_candidates, has_alias,
  is_among, lookup_name, names_of_nodes, no_aliases, shown_name, wanted_name,
}
use idrive_unlimited.Webdav.Aliases.Assigned.{shown_by}

-- Two devices that want the same name are one, if it is wanted once.
at_most : (b : Bool) (n : ℕ) → n ≤ (if b then n + 1 else n)
at_most true n = omega arith
at_most false n = omega arith

count-head :
    (k : Str) (c : Candidate) (cs : List Candidate)
    → c.display ≡ k
    → candidate_count k (c ∷ cs) ≡ candidate_count k cs + 1
count-head k c cs e = rw ((=s_iff c.display k).1 e) refl

count-Mem :
    {c : Candidate} {cs : List Candidate} (k : Str)
    → Memᴰ c cs
    → c.display ≡ k
    → 0 < candidate_count k cs
count-Mem k (Memᴰ.head {x = x} {xs = cs} p) e =
    omega (arith, count-head k x cs (ap (λ c. c.display) (sym p) ∙ e))
count-Mem k (Memᴰ.tail {x = x} {xs = cs} m) e =
    omega (arith, count-Mem k m e, at_most (x.display =s k) (candidate_count k cs))

single :
    {c d : Candidate} {cs : List Candidate} (k : Str)
    → Memᴰ c cs
    → Memᴰ d cs
    → c.display ≡ k
    → d.display ≡ k
    → candidate_count k cs ≡ 1
    → c.raw ≡ d.raw
single k (Memᴰ.head p) (Memᴰ.head q) e f n = ap (λ c. c.raw) (p ∙ sym q)
single k (Memᴰ.head {x = x} {xs = cs} p) (Memᴰ.tail m) e f n =
    let one_more = count-head k x cs (ap (λ c. c.display) (sym p) ∙ e) in
    absurd (omega (arith, one_more, count-Mem k m f, n))
single k (Memᴰ.tail m) (Memᴰ.head {x = x} {xs = cs} q) e f n =
    let one_more = count-head k x cs (ap (λ c. c.display) (sym q) ∙ f) in
    absurd (omega (arith, one_more, count-Mem k m e, n))
single k (Memᴰ.tail {x = x} {xs = cs} m) (Memᴰ.tail m') e f n =
    single k m m' e f
      (omega (arith, n, count-Mem k m e, at_most (x.display =s k) (candidate_count k cs)))

module _ (reserved : List Str) (cs : List Candidate)
    (raws : (c : Candidate) → Memᴰ c cs → is_among c.raw reserved ≡ true) where
  same_name :
      (a b : Bool) (c d : Candidate)
      → Memᴰ c cs
      → Memᴰ d cs
      → has_alias reserved cs c ≡ a
      → has_alias reserved cs d ≡ b
      → (if a then c.display else c.raw) ≡ (if b then d.display else d.raw)
      → c.raw ≡ d.raw
  same_name false false c d m n a b e = e
  same_name true false c d m n a b e =
      let taken : is_among c.display reserved ≡ true =
        subst (λ x. is_among x reserved ≡ true) (sym e) (raws d n) in
      ground arith
  same_name false true c d m n a b e =
      let taken : is_among d.display reserved ≡ true =
        subst (λ x. is_among x reserved ≡ true) e (raws c m) in
      ground arith
  same_name true true c d m n a b e = single c.display m n refl (sym e) (ground arith)

  shown_name-injective :
      (c d : Candidate)
      → Memᴰ c cs
      → Memᴰ d cs
      → shown_name reserved cs c ≡ shown_name reserved cs d
      → c.raw ≡ d.raw
  shown_name-injective c d m n e = same_name _ _ c d m n refl refl e

assigned_first :
    (b : Bool) (k l v u : Str) (rest : List (Str × Str))
    → (l =s k) ≡ b
    → v ≡ u
    → b ≡ true
    → lookup_name k ((l, v) ∷ rest) ≡ some u
assigned_first true k l v u rest s e t = rw s (ap some e)
assigned_first false k l v u rest s e t = ground arith

assigned_later :
    (shown : Candidate → Str) (c : Candidate) (cs : List Candidate) (d : Candidate) (k v : Str)
    (rest : List (Str × Str))
    → Memᴰ d (c ∷ cs)
    → shown d ≡ k
    → (shown c =s k) ≡ false
    → (lookup_name k ((shown c, c.raw) ∷ rest) ≡ some v)
      ⊎ ((c : Candidate) × (Memᴰ c cs × (shown c ≡ k)))
assigned_later shown c cs d k v rest (Memᴰ.head p) e other =
    let same = (=s_iff (shown c) k).1 (ap shown (sym p) ∙ e) in ground arith
assigned_later shown c cs d k v rest (Memᴰ.tail m) e other = inr (d, (m, e))

-- Where all that is assigned to a key is one value, the key has it.
found_value :
    (shown : Candidate → Str) (cs : List Candidate) (al : RootAliases) (k v : Str)
    → ((c : Candidate) → Memᴰ c cs → shown c ≡ k → c.raw ≡ v)
    → (lookup_name k al.display_to_raw ≡ some v) ⊎ ((c : Candidate) × (Memᴰ c cs × (shown c ≡ k)))
    → lookup_name k (assign shown cs al).display_to_raw ≡ some v
unfolding assign
found_value shown [] al k v f (inl h) = h
found_value shown [] al k v f (inr (c, (m, e))) = absurd (Memᴰ.not-nil m)
found_value shown (c ∷ cs) al k v f g =
    found_value shown cs _ k v (λ d m. f d (Memᴰ.tail m))
      (elim (Bool-cases (shown c =s k)) [
        | inl same ↦
            let at_key = (=s_iff (shown c) k).0 same in
            inl (
              assigned_first _ k (shown c) c.raw v al.display_to_raw same
                (f c (Memᴰ.head refl) at_key) refl)
        | inr other ↦ elim g [
          | inl h ↦ inl (rw other h)
          | inr (d, (m, e)) ↦ assigned_later shown c cs d k v al.display_to_raw m e other
        ]
      ])

reserved_one :
    (o : Option DeviceMeta) (node : Node) (nodes : List Node) (c : Candidate)
    (rest : Memᴰ c (device_candidates nodes) → is_among c.raw (names_of_nodes nodes) ≡ true)
    → Memᴰ c (elim o [
      | none ↦ device_candidates nodes
      | some device ↦
          record { raw = node.name; display = wanted_name node.name device.name }
          ∷ device_candidates nodes
    ])
    → is_among c.raw (node.name ∷ names_of_nodes nodes) ≡ true
reserved_one none node nodes c rest m = let h = rest m in ground arith
reserved_one (some device) node nodes c rest (Memᴰ.head p) =
    let same : (node.name =s c.raw) ≡ true = (=s_iff node.name c.raw).1 (ap (λ c. c.raw) (sym p)) in
    ground arith
reserved_one (some device) node nodes c rest (Memᴰ.tail m) = let h = rest m in ground arith

-- The name of every device is reserved.
pub reserved-candidates :
    (nodes : List Node) (c : Candidate)
    → Memᴰ c (device_candidates nodes)
    → is_among c.raw (names_of_nodes nodes) ≡ true
unfolding device_candidates
reserved-candidates [] c m = absurd (Memᴰ.not-nil m)
reserved-candidates (node ∷ nodes) c m =
    reserved_one node.device node nodes c (reserved-candidates nodes c) m

-- Whatever nodes the root lists, a name on the service that is shown under another name is what
-- the shown name stands for.
pub build_root_aliases_round_trip :
    (nodes : List Node) (raw display : Str)
    → lookup_name raw (build_root_aliases nodes).raw_to_display ≡ some display
    → lookup_name display (build_root_aliases nodes).display_to_raw ≡ some raw
unfolding build_root_aliases
build_root_aliases_round_trip nodes raw display h =
    let (c, (m, (p, q))) = shown_by shown cs raw display h in
    found_value shown cs no_aliases display raw
      (λ d n e.
        shown_name-injective (names_of_nodes nodes) cs (reserved-candidates nodes) d c n m
          (e ∙ sym q)
        ∙ p)
      (inr (c, (m, q)))
  where
    cs : List Candidate
    cs = device_candidates nodes

    shown : Candidate → Str
    shown = shown_name (names_of_nodes nodes) cs
