-- ===== src/Webdav/Aliases/Assigned.antt =====
-- Which device a name that the maps of the aliases hold comes from.
use mathlib.Core.List.{Memᴰ}
use idrive_unlimited.Base.{
  =s_iff, Bool, List, Str, [], ap, arith, false, if◌then◌else◌, inl, inr, none, refl, some, subst,
  sym, true, ◌=s◌, ◌∷◌, ◌≡◌, ◌≢◌, ◌⊎◌,
}
use idrive_unlimited.Webdav.Aliases.{Candidate, RootAliases, assign, lookup_name, no_aliases}

some_eq : {a b : Str} → some a ≡ some b → a ≡ b
some_eq h = cc

-- The assignments of one map, the last one first.
abbrev pairs :
    (Candidate → Str) → (Candidate → Str) → List Candidate → List (Str × Str) → List (Str × Str)
pairs key value [] acc = acc
pairs key value (c ∷ cs) acc = pairs key value cs ((key c, value c) ∷ acc)

assign-raw_to_display :
    (shown : Candidate → Str) (cs : List Candidate) (al : RootAliases)
    → (assign shown cs al).raw_to_display ≡ pairs (λ c. c.raw) shown cs al.raw_to_display
unfolding assign
assign-raw_to_display shown [] al = refl
assign-raw_to_display shown (c ∷ cs) al = assign-raw_to_display shown cs _

assign-display_to_raw :
    (shown : Candidate → Str) (cs : List Candidate) (al : RootAliases)
    → (assign shown cs al).display_to_raw ≡ pairs shown (λ c. c.raw) cs al.display_to_raw
unfolding assign
assign-display_to_raw shown [] al = refl
assign-display_to_raw shown (c ∷ cs) al = assign-display_to_raw shown cs _

-- A device of the list with the given key and value.
abbrev pub Assigns : (Candidate → Str) → (Candidate → Str) → List Candidate → Str → Str → Type 0
Assigns key value cs k v = (c : Candidate) × (Memᴰ c cs × ((key c ≡ k) × (value c ≡ v)))

by_head :
    (b : Bool) (key value : Candidate → Str) (c : Candidate) (cs : List Candidate) (k v : Str)
    (rest : List (Str × Str))
    → (key c =s k) ≡ b
    → (if b then some (value c) else lookup_name k rest) ≡ some v
    → (lookup_name k rest ≡ some v) ⊎ Assigns key value (c ∷ cs) k v
by_head true key value c cs k v rest s h =
    inr (c, (Memᴰ.head refl, ((=s_iff (key c) k).0 s, some_eq h)))
by_head false key value c cs k v rest s h = inl h

assigned_by :
    (key value : Candidate → Str) (cs : List Candidate) (acc : List (Str × Str)) (k v : Str)
    → lookup_name k (pairs key value cs acc) ≡ some v
    → (lookup_name k acc ≡ some v) ⊎ Assigns key value cs k v
assigned_by key value [] acc k v h = inl h
assigned_by key value (c ∷ cs) acc k v h = elim (assigned_by key value cs _ k v h) [
  | inr (e, (m, p)) ↦ inr (e, (Memᴰ.tail m, p))
  | inl first ↦ by_head _ key value c cs k v acc refl first
]

assigned :
    (key value : Candidate → Str) (cs : List Candidate) (k v : Str)
    → lookup_name k (pairs key value cs []) ≡ some v
    → Assigns key value cs k v
assigned key value cs k v h = elim (assigned_by key value cs [] k v h) [ inl e ↦ cc | inr a ↦ a ]

pub shown_by :
    (shown : Candidate → Str) (cs : List Candidate) (raw d : Str)
    → lookup_name raw (assign shown cs no_aliases).raw_to_display ≡ some d
    → Assigns (λ c. c.raw) shown cs raw d
shown_by shown cs raw d h =
    assigned (λ c. c.raw) shown cs raw d
      (subst (λ l. lookup_name raw l ≡ some d) (assign-raw_to_display shown cs no_aliases) h)

pub stands_by :
    (shown : Candidate → Str) (cs : List Candidate) (d raw : Str)
    → lookup_name d (assign shown cs no_aliases).display_to_raw ≡ some raw
    → Assigns shown (λ c. c.raw) cs d raw
stands_by shown cs d raw h =
    assigned shown (λ c. c.raw) cs d raw
      (subst (λ l. lookup_name d l ≡ some raw) (assign-display_to_raw shown cs no_aliases) h)

-- Every device has an entry under its name on the service.
pairs-none :
    (key value : Candidate → Str) (cs : List Candidate) (acc : List (Str × Str)) (k : Str)
    → lookup_name k (pairs key value cs acc) ≡ none
    → lookup_name k acc ≡ none
pairs-none key value [] acc k h = h
pairs-none key value (c ∷ cs) acc k h = let e = pairs-none key value cs _ k h in ground arith

pairs-Mem :
    (key value : Candidate → Str) (cs : List Candidate) (acc : List (Str × Str)) (c : Candidate)
    → Memᴰ c cs
    → lookup_name (key c) (pairs key value cs acc) ≢ none
pairs-Mem key value [] acc c m h = elim m [ ]
pairs-Mem key value (d ∷ cs) acc c (Memᴰ.head p) h =
    let e = pairs-none key value cs _ (key c) h in
    let same = (=s_iff (key d) (key c)).1 (ap key (sym p)) in ground arith
pairs-Mem key value (d ∷ cs) acc c (Memᴰ.tail m) h = pairs-Mem key value cs _ c m h

pub shown-Mem :
    (shown : Candidate → Str) (cs : List Candidate) (c : Candidate)
    → Memᴰ c cs
    → lookup_name c.raw (assign shown cs no_aliases).raw_to_display ≢ none
shown-Mem shown cs c m h =
    pairs-Mem (λ c. c.raw) shown cs [] c m
      (subst (λ l. lookup_name c.raw l ≡ none) (assign-raw_to_display shown cs no_aliases) h)
