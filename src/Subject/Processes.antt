-- ===== src/Subject/Processes.antt =====
-- internal/subject/process.go: FindProcesses, on what the operating system returns for /proc.
use sing_box_inbound_bench.Base.{
  suc, ◌≡◌, refl, sym, ◌∙◌, Bool, true, false, if◌then◌else◌, if-true, if-false, String, str_append,
  List, [], ◌∷◌, Option, none, some, ◌⊎◌, inl, inr, All, Bool-cases,
}
use sing_box_inbound_bench.Base.Int.{ℤ, pos, negsuc, eq_ℤ}
use sing_box_inbound_bench.Text.{itoa}
use sing_box_inbound_bench.Protocol.Config.{contains_text}

-- What `os.ReadFile` of an entry's comm returns: it is there, it is missing or must not be read, or
-- another error.
pub data Comm : Type 0 where
  comm : String → Comm
  passed_over : Comm
  unreadable : String → Comm

pub record ProcEntry : Type 0 where
  pub is_dir : Bool
  pub name : String
  pub content : Comm

-- What the code calls of the operating system and of Go's standard library.
pub record Host : Type 0 where
  pub own_pid : ℤ
  -- strconv.Atoi, its error dropped, and strings.TrimSpace
  pub atoi : String → Option ℤ
  pub trim_space : String → String

-- `%d`
abbrev pub decimal : ℤ → String
decimal (pos n) = itoa n
decimal (negsuc n) = str_append "-" (itoa (suc n))

module _ (host : Host) (names : List String) where
  open host use {own_pid, atoi, trim_space}

  abbrev pub prepend : String → String ⊎ List String → String ⊎ List String
  prepend text (inl e) = inl e
  prepend text (inr found) = inr (text ∷ found)

  abbrev pub described : String → ℤ → String
  described name pid = str_append name (str_append "(pid=" (str_append (decimal pid) ")"))

  -- The rest of the loop behind an entry whose comm was read.
  unfoldable pub read_comm : ℤ → Comm → String ⊎ List String → String ⊎ List String
  read_comm pid (unreadable e) rest = inl e
  read_comm pid passed_over rest = rest
  read_comm pid (comm text) rest =
      if contains_text names (trim_space text)
      then prepend (described (trim_space text) pid) rest
      else rest

  abbrev pub with_pid : Option ℤ → Comm → String ⊎ List String → String ⊎ List String
  with_pid none content rest = rest
  with_pid (some pid) content rest = if eq_ℤ pid own_pid then rest else read_comm pid content rest

  -- The loop over the entries. An error at one returns at once, so the rest is not looked at.
  unfoldable pub scan_entries : List ProcEntry → String ⊎ List String
  scan_entries [] = inr []
  scan_entries (entry ∷ entries) =
      let rest = scan_entries entries in
      let looked = with_pid (atoi entry.name) entry.content rest in
      if entry.is_dir then looked else rest

  -- `os.ReadDir("/proc")` has an error or returns the entries.
  unfoldable pub find_processes : String ⊎ List ProcEntry → String ⊎ List String
  find_processes (inl e) = inl e
  find_processes (inr entries) = scan_entries entries

  -- The entry is no other process, or one that could be looked at and has none of the names.
  pub data Unnamed (entry : ProcEntry) : Type 0 where
    no_directory : entry.is_dir ≡ false → Unnamed entry
    no_process : atoi entry.name ≡ none → Unnamed entry
    itself : (pid : ℤ) → atoi entry.name ≡ some pid → eq_ℤ pid own_pid ≡ true → Unnamed entry
    hidden : entry.content ≡ passed_over → Unnamed entry
    other_name :
        (text : String)
        → entry.content ≡ comm text
        → contains_text names (trim_space text) ≡ false
        → Unnamed entry

  read_comm-Unnamed :
      (entry : ProcEntry) (pid : ℤ) (content : Comm) (rest : String ⊎ List String)
      → entry.content ≡ content
      → read_comm pid content rest ≡ inr []
      → Unnamed entry × (rest ≡ inr [])
  unfolding read_comm
  read_comm-Unnamed entry pid (unreadable e) rest p h = absurd (left-right h)
    where
      left-right : ◌≡◌ {A = String ⊎ List String} (inl e) (inr []) → ⊥
      left-right k = cc
  read_comm-Unnamed entry pid passed_over rest p h = (hidden p, h)
  read_comm-Unnamed entry pid (comm text) rest p h =
      elim (Bool-cases (contains_text names (trim_space text))) [
        | inl e ↦ absurd (prepend-empty _ rest (sym (if-true _ _ _ e) ∙ h))
        | inr e ↦ (other_name text p e, sym (if-false _ _ _ e) ∙ h)
      ]
    where
      prepend-empty : (t : String) (r : String ⊎ List String) → prepend t r ≡ inr [] → ⊥
      prepend-empty t (inl e) k = cc
      prepend-empty t (inr found) k = cc

  with_pid-Unnamed :
      (entry : ProcEntry) (pid : Option ℤ) (rest : String ⊎ List String)
      → atoi entry.name ≡ pid
      → with_pid pid entry.content rest ≡ inr []
      → Unnamed entry × (rest ≡ inr [])
  with_pid-Unnamed entry none rest p h = (no_process p, h)
  with_pid-Unnamed entry (some pid) rest p h = elim (Bool-cases (eq_ℤ pid own_pid)) [
    | inl e ↦ (itself pid p e, sym (if-true _ _ _ e) ∙ h)
    | inr e ↦ read_comm-Unnamed entry pid entry.content rest refl (sym (if-false _ _ _ e) ∙ h)
  ]

  pub scan_entries-Unnamed :
      (entries : List ProcEntry) → scan_entries entries ≡ inr [] → All Unnamed entries
  unfolding scan_entries
  scan_entries-Unnamed [] h = tt
  scan_entries-Unnamed (entry ∷ entries) h = elim (Bool-cases entry.is_dir) [
    | inl e ↦
        let (u, rest) =
          with_pid-Unnamed entry (atoi entry.name) (scan_entries entries) refl
            (sym (if-true _ _ _ e) ∙ h) in
        (u, scan_entries-Unnamed entries rest)
    | inr e ↦ (no_directory e, scan_entries-Unnamed entries (sym (if-false _ _ _ e) ∙ h))
  ]
