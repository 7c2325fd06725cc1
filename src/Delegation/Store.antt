-- ===== src/Delegation/Store.antt =====
-- clawmes/delegation/store.py: the file-backed store of records, one file for each id, with its
-- cache. A file holds the dict that `json.loads` reads off it; one that gives no record is renamed to
-- a name that is no `*.json`.
pub mod Files
use clawmes.Base.{
  ℕ, String, Bool, true, false, not, ◌&&◌, ◌||◌, Option, none, some, List, [], ◌∷◌, ◌++◌, ltb, ◌==◌,
  if◌then◌else◌, is_some, contains, str_eq, lookup, insert, erase, map,
}
use clawmes.Delegation.Hex.{Text, codes}
use clawmes.Delegation.Dicts.{Python, RecordDict, record_to_dict, record_from_dict}
use clawmes.Delegation.Types.{DelegationRecord}

abbrev pub eq_text : Text → Text → Bool
eq_text [] [] = true
eq_text (a ∷ s) (b ∷ t) = a == b && eq_text s t
eq_text (a ∷ s) [] = false
eq_text [] (b ∷ t) = false

-- `<` of texts
abbrev pub less_text : Text → Text → Bool
less_text [] [] = false
less_text [] (b ∷ t) = true
less_text (a ∷ s) [] = false
less_text (a ∷ s) (b ∷ t) = ltb a b || (a == b && less_text s t)

-- `_safe_id`; `alnum c` says that `c.isalnum()`.
unfoldable pub safe_id : (ℕ → Bool) → Text → Text
safe_id alnum [] = []
safe_id alnum (c ∷ s) = (if alnum c || (c == 95 || c == 45) then c else 95) ∷ safe_id alnum s

-- The name in `_record_path`
unfoldable pub file_name : (ℕ → Bool) → String → Text
file_name alnum id = safe_id alnum (codes id) ++ codes ".json"

-- What `json.loads` makes of a file: a dict, or a ValueError.
pub data Content : Type 0 where
  dict : RecordDict → Content
  no_json : Content

abbrev pub Disk : Type 0
Disk = List (Text × Content)

-- The `*.json` files by name, in the order of their names, and the cache.
pub record Store : Type 0 where
  pub disk : Disk
  pub cache : List (String × DelegationRecord)

-- `if not record.created_at: record.created_at = now`
unfoldable pub stamped : String → DelegationRecord → DelegationRecord
stamped now r = record {
  id = r.id;
  chain_id = r.chain_id;
  delegation = r.delegation;
  status = r.status;
  hash = r.hash;
  policy_name = r.policy_name;
  tools = r.tools;
  permissions_context = r.permissions_context;
  expires_at = r.expires_at;
  unmapped = r.unmapped;
  created_at = (if str_eq r.created_at "" then now else r.created_at);
  last_checked_at = r.last_checked_at;
  kind = r.kind;
}

-- `tmp.replace(path)`
unfoldable pub write_file : Text → Content → Disk → Disk
write_file name content [] = (name, content) ∷ []
write_file name content ((other, old) ∷ disk) =
    let rest = write_file name content disk in
    if eq_text name other
    then (name, content) ∷ disk
    else (if less_text name other
        then (name, content) ∷ (other, old) ∷ disk
        else (other, old) ∷ rest)

unfoldable pub read_file : Text → Disk → Option Content
read_file name [] = none
read_file name ((other, content) ∷ disk) =
    if eq_text name other then some content else read_file name disk

-- `path.unlink()`, and the rename of a file to a name that is no `*.json`
unfoldable pub unlink : Text → Disk → Disk
unlink name [] = []
unlink name ((other, content) ∷ disk) =
    let rest = unlink name disk in if eq_text name other then disk else (other, content) ∷ rest

-- `self._cache[record.id] = record` for every record
abbrev refreshed :
    List DelegationRecord → List (String × DelegationRecord) → List (String × DelegationRecord)
refreshed [] cache = cache
refreshed (r ∷ records) cache = refreshed records (insert r.id r cache)

-- The cached records that no file shows.
abbrev unseen : List String → List (String × DelegationRecord) → List DelegationRecord
unseen seen [] = []
unseen seen ((id, r) ∷ cache) =
    if contains id seen then unseen seen cache else r ∷ unseen seen cache

module _ (py : Python) where
  -- `record_from_dict(json.loads(...))`; `none` is an exception that is caught.
  unfoldable pub record_of : Content → Option DelegationRecord
  record_of (dict data_) = record_from_dict py data_
  record_of no_json = none

  abbrev pub path_of : String → Text
  path_of id = file_name py.alnum id

  -- `save` at the time `now`
  unfoldable pub save : String → DelegationRecord → Store → Store
  save now r st =
      let r' = stamped now r in
      record {
        disk = write_file (path_of r.id) (dict (record_to_dict py r')) st.disk;
        cache = insert r.id r' st.cache;
      }

  -- `load` of an id that is not cached
  unfoldable pub load_file : String → Store → Option DelegationRecord × Store
  load_file id st = elim (read_file (path_of id) st.disk) [
    | none ↦ (none, st)
    | some content ↦ elim (record_of content) [
      | none ↦ (none, record { disk = unlink (path_of id) st.disk; cache = st.cache })
      | some r ↦ (some r, record { disk = st.disk; cache = insert id r st.cache })
    ]
  ]

  unfoldable pub load : String → Store → Option DelegationRecord × Store
  load id st =
      let uncached = load_file id st in
      elim (lookup id st.cache) [ some r ↦ (some r, st) | none ↦ uncached ]

  unfoldable pub has : String → Store → Bool
  has id st = is_some (lookup id st.cache) || is_some (read_file (path_of id) st.disk)

  unfoldable pub delete : String → Store → Bool × Store
  delete id st =
      let cache = erase id st.cache in
      elim (read_file (path_of id) st.disk) [
        | none ↦ (false, record { disk = st.disk; cache = cache })
        | some _ ↦ (true, record { disk = unlink (path_of id) st.disk; cache = cache })
      ]

  -- The records of the files, and the files that are not quarantined.
  unfoldable pub read_all : Disk → List DelegationRecord × Disk
  read_all [] = ([], [])
  read_all ((name, content) ∷ disk) =
      let (records, kept) = read_all disk in
      elim (record_of content) [
        | none ↦ (records, kept)
        | some r ↦ (r ∷ records, (name, content) ∷ kept)
      ]

  unfoldable pub list_records : Store → List DelegationRecord × Store
  list_records st =
      let (records, disk) = read_all st.disk in
      let cache = refreshed records st.cache in
      (records ++ unseen (map (λ r. r.id) records) cache, record { disk = disk; cache = cache })
