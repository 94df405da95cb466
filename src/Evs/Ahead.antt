-- ===== src/Evs/Ahead.antt =====
-- The recovery journal is written ahead: which questions have to wait for an acknowledged record.
pub mod Upload
pub mod Move
use idrive_unlimited.Base.{Bool, List, Str, [], ap, arith, false, inl, inr, true, ◌∷◌, ◌≡◌, ◌⊎◌}
use idrive_unlimited.Evs.Errors.{ok}
use idrive_unlimited.Evs.Journal.{save_upload}
use idrive_unlimited.Evs.Keeps.{Keeps}
use idrive_unlimited.Evs.Keeps.Reads.{is_harmless}
use idrive_unlimited.Evs.Leads.{AnyEvents, Leads, Leads-Keeps, Leads-bind, Obeyed, Rule}
use idrive_unlimited.Evs.Monad.{Env, M, ask, get_journaling, lift, when, ◌>>=◌}
use idrive_unlimited.Evs.Transfer.{ask_result}
use idrive_unlimited.Evs.Types.{Event, Query, UploadRecord, rename_file, save_record}

abbrev pub saved_event : UploadRecord → Event
saved_event r = record { question = save_record r; answer = ok tt }

-- The journal acknowledged that it holds the record.
abbrev pub Acknowledged : UploadRecord → List Event → Type 0
Acknowledged r [] = ⊥
Acknowledged r (e ∷ es) = (e ≡ saved_event r) ⊎ Acknowledged r es

-- A recovery that reads the journal knows that `b` holds what was at `a`.
abbrev pub Promised : Str → Str → List Event → Type 0
Promised a b es =
    (r : UploadRecord) × (r.dest ≡ a)
    × (r.backup ≡ b)
    × (r.ready ≡ true)
    × (r.had_original ≡ true)
    × Acknowledged r es

-- A rename to another name than `dest`, after the events, is one that the journal knows of.
abbrev pub Covered : Str → Rule
Covered dest es (rename_file a b) = (b ≡ dest) ⊎ Promised a b es
Covered dest es _ = Unit

abbrev pub WriteAhead : Str → List Event → Type 0
WriteAhead dest es = Obeyed (Covered dest) es

-- The questions that need not wait.
abbrev pub Plain : Str → Query → Type 0
Plain dest (rename_file a b) = b ≡ dest
Plain dest _ = Unit

plain_covered : (dest : Str) (es : List Event) (q : Query) → Plain dest q → Covered dest es q
plain_covered dest es (rename_file a b) p = inl p
plain_covered dest es _ p = tt

pub Plain-Covered :
    (dest : Str) (e : Event) (es : List Event)
    → Plain dest e.question
    → AnyEvents es
    → Covered dest es e.question × AnyEvents (e ∷ es)
Plain-Covered dest e es p _ = (plain_covered dest es e.question p, tt)

pub is_harmless-Plain : (dest : Str) (q : Query) → is_harmless q ≡ true → Plain dest q
is_harmless-Plain dest (rename_file a b) e = cc
is_harmless-Plain dest _ e = tt

-- The questions that need not wait once the journal holds a record.
abbrev pub Kept : Str → UploadRecord → Query → Type 0
Kept dest r (rename_file a b) = (b ≡ dest) ⊎ ((r.dest ≡ a) × (r.backup ≡ b))
Kept dest r _ = Unit

pub is_harmless-Kept :
    (dest : Str) (r : UploadRecord) (q : Query) → is_harmless q ≡ true → Kept dest r q
is_harmless-Kept dest r (rename_file a b) e = cc
is_harmless-Kept dest r _ e = tt

module _ (dest : Str) (r : UploadRecord) (ready : r.ready ≡ true)
    (original : r.had_original ≡ true) where
  kept_covered :
      (es : List Event) (q : Query) → Kept dest r q → Acknowledged r es → Covered dest es q
  kept_covered es (rename_file a b) (inl p) h = inl p
  kept_covered es (rename_file a b) (inr p) h = inr (r, p.0, p.1, ready, original, h)
  kept_covered es _ p h = tt

  pub Kept-Covered :
      (e : Event) (es : List Event)
      → Kept dest r e.question
      → Acknowledged r es
      → Covered dest es e.question × Acknowledged r (e ∷ es)
  Kept-Covered e es p h = (kept_covered es e.question p h, inr h)

module _ {E : Env} {A B : Type 0} {dest : Str} {Q : UploadRecord → Type 0} where
  -- An action that asks plain questions alone, and what follows.
  pub Leads-Plain :
      (m : M E A) (f : A → M E B)
      → Keeps (Plain dest) Q m
      → ((a : A) → Leads (Covered dest) true Q AnyEvents (f a) λ _. AnyEvents)
      → Leads (Covered dest) true Q AnyEvents (m >>= f) λ _. AnyEvents
  Leads-Plain m f k l = Leads-bind m f (Leads-Keeps (Plain-Covered dest) m k) l

module _ {E : Env} {dest : Str} {Q : UploadRecord → Type 0} {S : List Event → Type 0} where
  Leads-journal :
      (b : Bool) (r : UploadRecord)
      → b ≡ true
      → Leads {E = E}
          (Covered dest)
          true
          Q
          S
          (when b (ask_result (ask (save_record r))))
          λ _. Acknowledged r
  unfolding when ask_result ask ◌>>=◌ lift
  Leads-journal false r h = ground arith
  Leads-journal true r h = record {
    at = λ w s _. (
      record { journal = s.journal; ahead = (tt, s.ahead); tx = s.tx },
      λ a e. inl (ap (λ x. record { question = save_record r; answer = x }) e),
    );
  }

  -- After it succeeded, the journal holds the record.
  pub Leads-save_upload :
      (r : UploadRecord) → Leads {E = E} (Covered dest) true Q S (save_upload r) λ _. Acknowledged r
  unfolding save_upload get_journaling ◌>>=◌
  Leads-save_upload r = record { at = λ w s h. (Leads-journal w.journaling r s.journal).at w s h }
