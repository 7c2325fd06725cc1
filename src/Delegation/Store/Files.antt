-- ===== src/Delegation/Store/Files.antt =====
-- What is read back from the files: a record, and whatever was saved later under its file name.
use clawmes.Base.{
  ℕ, suc, ◌≡◌, refl, sym, ap, ◌∙◌, ◌↔◌, inl, inr, String, Bool, true, Option, none, some, [], ◌∷◌,
  ◌||◌, ◌==◌, arith, if◌then◌else◌, lookup, insert, lookup-insert, str_eq, eq_refl, ==_iff, All,
  length, Bool-cases, Option-cases,
}
use clawmes.Delegation.Hex.{Text}
use clawmes.Delegation.Types.{DelegationRecord}
use clawmes.Delegation.Dicts.{Python, record_to_dict}
use clawmes.Delegation.Dicts.RoundTrip.{ReadsHex, record_from_dict-record_to_dict}
use clawmes.Delegation.Store.{
  eq_text, safe_id, Content, dict, Disk, Store, stamped, write_file, read_file, record_of, path_of,
  save, load_file, load,
}

pub eq_text_iff : (s t : Text) → (eq_text s t ≡ true) ↔ (s ≡ t)
eq_text_iff [] [] = ground arith
eq_text_iff [] (b ∷ t) = ground arith
eq_text_iff (a ∷ s) [] = ground arith
eq_text_iff (a ∷ s) (b ∷ t) = ground (arith, ==_iff a b, eq_text_iff s t)

-- A file that is written holds its content, and the other files are as before.
read_file-write_file :
    (name other : Text) (content : Content) (disk : Disk)
    → read_file other (write_file name content disk)
      ≡ (if eq_text other name then some content else read_file other disk)
unfolding read_file write_file
read_file-write_file name other content [] = refl
read_file-write_file name other content ((q, old) ∷ disk) = ground (
  arith,
  eq_text_iff other name,
  eq_text_iff other q,
  eq_text_iff name q,
  read_file-write_file name other content disk,
)

-- A code that `_safe_id` leaves as it is.
abbrev pub is_safe : (ℕ → Bool) → ℕ → Bool
is_safe alnum c = alnum c || (c == 95 || c == 45)

-- A file name made of an id keeps to letters and digits, `_` and `-`, as `isalnum` says, is as long as
-- the id, and is the id itself where that has such characters only.
pub safe_id-IsSafe :
    (alnum : ℕ → Bool) (s : Text)
    → All (λ c. is_safe alnum c ≡ true) (safe_id alnum s)
      × ((length (safe_id alnum s) ≡ length s)
          × (All (λ c. is_safe alnum c ≡ true) s → safe_id alnum s ≡ s))
unfolding safe_id
safe_id-IsSafe alnum [] = (tt, (refl, λ h. refl))
safe_id-IsSafe alnum (c ∷ s) =
    let (safe, (long, same)) = safe_id-IsSafe alnum s in
    elim (Bool-cases (is_safe alnum c)) [
      | inl kept ↦ rw kept ((kept, safe), (ap suc long, λ h. ap (λ t. c ∷ t) (same h.1)))
      | inr replaced ↦
          rw replaced ((ground arith, safe), (ap suc long, λ h. ground (arith, h.0, replaced)))
    ]

module _ (py : Python) where
  -- Whether two ids have the same file.
  abbrev pub same_file : String → String → Bool
  same_file id other = eq_text (path_of py id) (path_of py other)

  load_cached :
      (id : String) (st : Store) (r : DelegationRecord)
      → lookup id st.cache ≡ some r
      → (load py id st).0 ≡ some r
  unfolding load
  load_cached id st r h = rw (load, h) refl

  abbrev pub restarted : Store → Store
  restarted st = record { disk = st.disk; cache = [] }

  loaded_file :
      (id : String) (st : Store) (content : Option Content)
      → read_file (path_of py id) st.disk ≡ content
      → (load py id (restarted st)).0 ≡ (elim content [ none ↦ none | some c ↦ record_of py c ])
  unfolding load load_file
  loaded_file id st none h = rw (load, load_file, h) refl
  loaded_file id st (some c) h = elim (Option-cases (record_of py c)) [
    | inl bad ↦ rw (load, load_file, h, bad) refl
    | inr (r, fine) ↦ rw (load, load_file, h, fine) refl
  ]

  -- What is saved is loaded again, with a creation time, while the process runs. After a restart,
  -- with an empty cache, every id whose file is the one of the record is given the record, in every
  -- field, as the dict in the file tells it, where `int(s, 16)` reads what `hex` writes; every other
  -- id is given what it would be given had nothing been saved.
  pub load-save :
      (now : String) (r : DelegationRecord) (id : String) (st : Store)
      → ReadsHex py
      → ((load py r.id (save py now r st)).0 ≡ some (stamped now r))
        × ((load py id (restarted (save py now r st))).0
            ≡ (if same_file id r.id then some (stamped now r) else (load py id (restarted st)).0))
  unfolding save
  load-save now r id st reads =
      let r' : DelegationRecord = stamped now r in
      let content : Content = dict (record_to_dict py r') in
      let itself : str_eq r.id r.id ≡ true = eq_refl r.id in
      let found : lookup r.id (insert r.id r' st.cache) ≡ some r' =
        rw itself at (lookup-insert r.id r.id r' st.cache) in
      let on_disk = read_file-write_file (path_of py r.id) (path_of py id) content st.disk in
      let whole : record_of py content ≡ some r' =
        unfold record_of in record_from_dict-record_to_dict py r' reads in
      (
        load_cached r.id _ r' found,
        elim (Bool-cases (same_file id r.id)) [
          | inl same ↦
              let here : read_file (path_of py id) (write_file (path_of py r.id) content st.disk)
                  ≡ some content =
                rw same at on_disk in
              rw same (loaded_file id (save py now r st) (some content) here ∙ whole)
          | inr other ↦
              let there : read_file (path_of py id) (write_file (path_of py r.id) content st.disk)
                  ≡ read_file (path_of py id) st.disk =
                rw other at on_disk in
              rw other (
                loaded_file id (save py now r st) (read_file (path_of py id) st.disk) there
                ∙ sym (loaded_file id st (read_file (path_of py id) st.disk) refl))
        ],
      )
