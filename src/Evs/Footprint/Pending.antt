-- ===== src/Evs/Footprint/Pending.antt =====
-- RecoverPending acts on validated records alone, and on each within what its state allows.
use idrive_unlimited.Base.{
  Bool, List, Option, Str, String, [], ap, codes, false, has_suffix, inl, inr, is_empty, none, refl,
  some, subst, true, ℕ, ◌+◌, ◌∷◌, ◌≡◌, ◌⊎◌,
}
use idrive_unlimited.Evs.Errors.{Result, err, ok}
use idrive_unlimited.Evs.Gives.{ok_injective}
use idrive_unlimited.Evs.Journal.{
  decoded_record, recover_file, recover_files, recover_pending, validate_upload_record, wrapped,
}
use idrive_unlimited.Evs.Keeps.{
  AnyRecord, Keeps, Keeps-ask, Keeps-attempt, Keeps-bind, Keeps-get_journaling, Keeps-guard,
  Keeps-lift, Keeps-pure, Keeps-set_tx,
}
use idrive_unlimited.Evs.Keeps.Reads.{is_harmless}
use idrive_unlimited.Evs.Keeps.Recovery.{Admits, Keeps-recover_upload}
use idrive_unlimited.Evs.Keeps.Writes.{Keeps-ask_result}
use idrive_unlimited.Evs.Leads.{
  AnyEvents, Leads, Leads-Keeps, Leads-any, Leads-bind, Leads-if, Leads-lift, Leads-post,
  Leads-pure, Obeyed, Rule, Sound,
}
use idrive_unlimited.Evs.Monad.{Env, M, World, ask, lift, pure, ◌>>=◌, ◌>>◌}
use idrive_unlimited.Evs.Transfer.{ask_result}
use idrive_unlimited.Evs.Types.{
  Event, Query, UploadRecord, delete_file, journal_info, journal_read, read_journal, remove_record,
  rename_file, save_record,
}
use idrive_unlimited.Path.{clean_path}

-- What recovery may do for one record: delete its stage name, if the record is not ready or has
-- no source to move, delete its backup, if it is ready and had an original, rename the backup
-- back, if it is ready, had an original and is not committed, save the record, as it is or
-- committed, and forget it.
abbrev pub RecordAllows : UploadRecord → Query → Type 0
RecordAllows r (delete_file p) =
    (((r.ready ≡ false) ⊎ (is_empty r.source ≡ true)) × (p ≡ clean_path r.stage))
    ⊎ ((r.ready ≡ true) × (r.had_original ≡ true) × (p ≡ clean_path r.backup))
RecordAllows r (rename_file a b) =
    (r.ready ≡ true)
    × (r.committed ≡ false)
    × (r.had_original ≡ true)
    × (a ≡ clean_path r.backup)
    × (b ≡ clean_path r.dest)
RecordAllows r (save_record s) = (s ≡ r) ⊎ (s ≡ record r { committed = true })
RecordAllows r (remove_record id) = id ≡ r.id
RecordAllows r _ = ⊥

abbrev pub is_journal_read : Query → Bool
is_journal_read (journal_read name) = true
is_journal_read _ = false

-- The latest journal file that was read is `name`, and it held `contents`.
abbrev pub LastRead : Str → Option UploadRecord → List Event → Type 0
LastRead name contents [] = ⊥
LastRead name contents (e ∷ es) =
    (e ≡ record { question = journal_read name; answer = ok contents })
    ⊎ ((is_journal_read e.question ≡ false) × LastRead name contents es)

harmless : (q : Query) → is_harmless q ≡ true → is_harmless q ≡ true
harmless q e = e

-- What recovery may ask after the events so far.
abbrev pub PendingRule : Rule
PendingRule es q =
    (is_harmless q ≡ true)
    ⊎ ((is_journal_read q ≡ true)
        ⊎ ((r : UploadRecord) × (name : Str) × LastRead name (some r) es
            × (validate_upload_record r name ≡ ok tt)
            × RecordAllows r q))

-- The questions of the recovery of one record.
abbrev RecordStep : UploadRecord → Query → Type 0
RecordStep r q = (is_harmless q ≡ true) ⊎ RecordAllows r q

record_harmless : (r : UploadRecord) (q : Query) → is_harmless q ≡ true → RecordStep r q
record_harmless r q e = inl e

record-Admits : (r : UploadRecord) → Admits (RecordStep r) r
record-Admits r = record {
  delete_stage = λ e. inr (inl (e, refl));
  delete_backup = λ e o. inr (inr (e, o, refl));
  restore = λ e c o. inr (e, c, o, refl, refl);
  save = inr (inl refl);
  save_committed = inr (inr refl);
  forget = inr refl;
}

reads_nothing : (r : UploadRecord) (q : Query) → RecordStep r q → is_journal_read q ≡ false
reads_nothing r (journal_read name) (inl e) = cc
reads_nothing r (journal_read name) (inr e) = elim e [ ]
reads_nothing r _ p = refl

wrapped-eq-ok :
    {A : Type 0} (text : String) (m : Result A) (a : A) → wrapped text m ≡ ok a → m ≡ ok a
unfolding wrapped
wrapped-eq-ok text (ok b) a h = h
wrapped-eq-ok text (err e) a h = cc

decoded_some : (o : Option UploadRecord) (r : UploadRecord) → decoded_record o ≡ ok r → o ≡ some r
unfolding decoded_record
decoded_some none r h = cc
decoded_some (some c) r h = ap some (ok_injective c r h)

-- The record that was read last, and passed validation.
abbrev ReadValid : Str → UploadRecord → List Event → Type 0
ReadValid name r es = LastRead name (some r) es × (validate_upload_record r name ≡ ok tt)

module _ {E : Env} where
  abbrev LeadsFrom :
      {A : Type 0} → (List Event → Type 0) → M E A → (A → List Event → Type 0) → Type 0
  LeadsFrom S m T = (open_journal : Bool) → Leads PendingRule open_journal AnyRecord S m T

  abbrev KeepsHarmless : {A : Type 0} → M E A → Type 0
  KeepsHarmless m = Keeps (λ q. is_harmless q ≡ true) AnyRecord m

  harmlessly : {A : Type 0} (m : M E A) → KeepsHarmless m → LeadsFrom AnyEvents m λ _. AnyEvents
  harmlessly m k j = Leads-Keeps (λ e es p h. (inl p, tt)) m k

  Leads-reads :
      (name : Str) → LeadsFrom AnyEvents (ask_result (ask (journal_read name))) (LastRead name)
  unfolding ask_result ask ◌>>=◌ lift
  Leads-reads name j = record {
    at = λ w s h. (
      record { journal = s.journal; ahead = (inr (inl refl), s.ahead); tx = s.tx },
      λ contents e. inl (ap (λ x. record { question = journal_read name; answer = x }) e),
    );
  }

  -- A step of the recovery of the record that was read.
  record_step :
      {A : Type 0} (name : Str) (r : UploadRecord) (m : M E A)
      → Keeps (RecordStep r) AnyRecord m
      → LeadsFrom (ReadValid name r) m λ _. ReadValid name r
  record_step name r m k j =
      Leads-Keeps
        (λ e es p h. (
          elim p [ inl q ↦ inl q | inr q ↦ inr (inr (r, name, h.0, h.1, q)) ],
          (inr (reads_nothing r e.question p, h.0), h.1),
        ))
        m k

  Leads-recover_file : (name : Str) → LeadsFrom AnyEvents (recover_file name) λ _. AnyEvents
  unfolding recover_file
  Leads-recover_file name j =
      Leads-bind _ _
        (harmlessly _ (Keeps-ask_result harmless _ (Keeps-ask (journal_info name) refl)) j)
        λ info. Leads-bind _ _ (harmlessly _ (Keeps-guard _ _) j) λ _.
          Leads-bind _ _ (Leads-reads name j) λ contents.
            Leads-bind _ _ (Leads-lift (decoded_record contents)) λ r.
              Leads-bind _ _
                (Leads-post {U = λ _. ReadValid name r} _
                  (Leads-lift (wrapped "invalid recovery journal" (validate_upload_record r name)))
                  λ a es h. (
                    subst (λ o. LastRead name o es) (decoded_some contents r h.1.0) h.1.1,
                    wrapped-eq-ok _ _ tt h.0,
                  ))
                λ _. Leads-bind _ _ (record_step name r _ (Keeps-set_tx r tt) j) λ _.
                  Leads-bind _ _
                    (Leads-any _ (
                      record_step name r _
                        (Keeps-attempt _
                          (Keeps-recover_upload (record_harmless r) r (record-Admits r)))
                        j))
                    λ outcome. harmlessly _ (Keeps-bind _ _ (Keeps-lift _) λ done. Keeps-pure tt) j

  Leads-recover_files :
      (names : List Str) (count : ℕ)
      → LeadsFrom AnyEvents (recover_files names count) λ _. AnyEvents
  unfolding recover_files
  Leads-recover_files [] count j = Leads-pure count
  Leads-recover_files (name ∷ names) count j =
      Leads-if (has_suffix name (codes ".json"))
        (recover_file name >> recover_files names (count + 1)) (recover_files names count)
        (Leads-bind _ _ (Leads-recover_file name j) λ _. Leads-recover_files names (count + 1) j)
        (Leads-recover_files names count j)

  Leads-recover_pending : LeadsFrom AnyEvents recover_pending λ _. AnyEvents
  unfolding recover_pending
  Leads-recover_pending j = Leads-bind _ _ (harmlessly _ Keeps-get_journaling j) λ journaling.
      Leads-if journaling (ask_result (ask read_journal) >>= λ names. recover_files names 0)
        (pure 0)
        (Leads-bind _ _ (harmlessly _ (Keeps-ask_result harmless _ (Keeps-ask read_journal refl)) j)
          λ names. Leads-recover_files names 0 j)
        (Leads-pure 0)

  -- Whatever the journal holds, whatever the service and the disk answer, and wherever it stops,
  -- each question that RecoverPending asks is harmless, or reads a journal file, or is one that
  -- `RecordAllows` lists for the record that the latest read of a journal file gave, which
  -- validateUploadRecord accepted for the name of that file, if this held of the events before.
  pub recover_pending-footprint :
      (w : World E) → Obeyed PendingRule w.events → Obeyed PendingRule (recover_pending w).1.events
  recover_pending-footprint w h =
      let start : Sound PendingRule w.journaling AnyRecord w = record {
        journal = refl;
        ahead = h;
        tx = tt;
      } in
      ((Leads-recover_pending w.journaling).at w start tt).0.ahead
