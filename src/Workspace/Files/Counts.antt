-- ===== src/Workspace/Files/Counts.antt =====
-- The counts of a reading of several files (local-agent/internal/workspace/read_files.go).
use on_code.Prelude.{
  ℕ, ◌<◌, suc, ◌+◌, ◌≡◌, ◌∙◌, refl, sym, ap, List, [], ◌∷◌, ◌++◌, map, Bytes, ok, arith, length,
  ◌==◌, if◌then◌else◌, append_assoc, append-nil,
}
use on_code.Protocol.Messages.{success, failed, partial}
use on_code.Workspace.Disk.{Disk}
use on_code.Workspace.Resolve.{Workspace}
use on_code.Workspace.Files.{
  Entry, read_entry, failed_entry, ReadFilesResult, read_one, add_entry, read_all, read_text_files,
  overall_status,
}

-- How many entries are read, and how many are not.
abbrev pub reads : List Entry → ℕ
reads [] = 0
reads (read_entry r ∷ es) = suc (reads es)
reads (failed_entry p e ∷ es) = reads es

abbrev pub misses : List Entry → ℕ
misses [] = 0
misses (read_entry r ∷ es) = misses es
misses (failed_entry p e ∷ es) = suc (misses es)

reads-append : (es fs : List Entry) → reads (es ++ fs) ≡ reads es + reads fs
reads-append [] fs = omega arith
reads-append (read_entry r ∷ es) fs = omega (arith, reads-append es fs)
reads-append (failed_entry p e ∷ es) fs = reads-append es fs

misses-append : (es fs : List Entry) → misses (es ++ fs) ≡ misses es + misses fs
misses-append [] fs = omega arith
misses-append (read_entry r ∷ es) fs = misses-append es fs
misses-append (failed_entry p e ∷ es) fs = omega (arith, misses-append es fs)

reads-misses : (es : List Entry) → reads es + misses es ≡ length es
reads-misses [] = refl
reads-misses (read_entry r ∷ es) = omega (arith, reads-misses es)
reads-misses (failed_entry p e ∷ es) = omega (arith, reads-misses es)

-- The counts of a result are those of its entries.
abbrev Counted : ReadFilesResult → Type 0
Counted r = (r.successes ≡ reads r.files) × (r.failures ≡ misses r.files)

add_entry-Counted : (e : Entry) (r : ReadFilesResult) → Counted r → Counted (add_entry e r)
add_entry-Counted (read_entry x) r h = (
  omega (arith, h.0, reads-append r.files (read_entry x ∷ [])),
  omega (arith, h.1, misses-append r.files (read_entry x ∷ [])),
)
add_entry-Counted (failed_entry p x) r h = (
  omega (arith, h.0, reads-append r.files (failed_entry p x ∷ [])),
  omega (arith, h.1, misses-append r.files (failed_entry p x ∷ [])),
)

files-add_entry : (e : Entry) (r : ReadFilesResult) → (add_entry e r).files ≡ r.files ++ e ∷ []
files-add_entry (read_entry x) r = refl
files-add_entry (failed_entry p x) r = refl

total-add_entry : (e : Entry) (r : ReadFilesResult) → (add_entry e r).total ≡ r.total
total-add_entry (read_entry x) r = refl
total-add_entry (failed_entry p x) r = refl

overall_status_lem :
    (r : ReadFilesResult) (n : ℕ)
    → r.total ≡ suc n
    → Counted r
    → overall_status r
      ≡ (if misses r.files == 0 then success else if reads r.files == 0 then failed else partial)
unfolding overall_status
overall_status_lem r n e h = ground arith

module _ (D : Disk) (sha256 : Bytes → Bytes) where
  -- The entries of these paths, each read for itself.
  abbrev pub entries : Workspace → D.State → ℕ → List Bytes → List Entry
  entries ws s max_bytes = map λ p. read_one D sha256 ws s p max_bytes

  read_all_lem :
      (ws : Workspace) (s : D.State) (max_bytes : ℕ) (paths : List Bytes) (r : ReadFilesResult)
      → Counted r
      → ((read_all D sha256 ws s max_bytes paths r).files ≡ r.files ++ entries ws s max_bytes paths)
        × ((read_all D sha256 ws s max_bytes paths r).total ≡ r.total)
        × Counted (read_all D sha256 ws s max_bytes paths r)
  unfolding read_all
  read_all_lem ws s max_bytes [] r h = (sym (append-nil r.files), refl, h)
  read_all_lem ws s max_bytes (p ∷ paths) r h =
      let e = read_one D sha256 ws s p max_bytes in
      let (files, total, counted) =
        read_all_lem ws s max_bytes paths (add_entry e r) (add_entry-Counted e r h) in
      (
        files
            ∙ ap (λ l. l ++ entries ws s max_bytes paths) (files-add_entry e r)
            ∙ append_assoc r.files (e ∷ []) (entries ws s max_bytes paths),
        total ∙ total-add_entry e r,
        counted,
      )

  -- What is reported of these paths: an entry for each one, in their order, and the counts and the status
  -- that the entries have.
  pub record Reports (ws : Workspace) (s : D.State) (max_bytes : ℕ) (paths : List Bytes)
      (r : ReadFilesResult) : Type 0 where
    pub in_order : r.files ≡ entries ws s max_bytes paths
    pub whole : r.total ≡ length paths
    pub status :
        overall_status r
        ≡ (if misses r.files == 0 then success else if reads r.files == 0 then failed else partial)

  -- A reading of several files reads each path for itself, in the order of the request, so that a file
  -- which cannot be read does not stop the others; its status is SUCCESS where all are read, FAILED where
  -- none is, and PARTIAL else.
  pub read_text_files-Reports :
      (ws : Workspace) (s : D.State) (max_bytes : ℕ) (paths : List Bytes) (r : ReadFilesResult)
      → read_text_files D sha256 ws s paths max_bytes ≡ ok r
      → Reports ws s max_bytes paths r
  unfolding read_text_files overall_status
  read_text_files-Reports ws s max_bytes [] r e = cc e
  read_text_files-Reports ws s max_bytes (p ∷ paths) r e =
      let start : ReadFilesResult = record {
        files = [];
        total = length (p ∷ paths);
        successes = 0;
        failures = 0;
      } in
      let (files, total, counted) = read_all_lem ws s max_bytes (p ∷ paths) start (refl, refl) in
      let same : read_all D sha256 ws s max_bytes (p ∷ paths) start ≡ r = cc e in
      rw (← same) (record {
        in_order = files;
        whole = total;
        status =
            overall_status_lem (read_all D sha256 ws s max_bytes (p ∷ paths) start) (length paths)
              total counted;
      })

  length-entries :
      (ws : Workspace) (s : D.State) (max_bytes : ℕ) (paths : List Bytes)
      → length (entries ws s max_bytes paths) ≡ length paths
  length-entries ws s max_bytes [] = refl
  length-entries ws s max_bytes (p ∷ paths) = ap suc (length-entries ws s max_bytes paths)

  -- the counts make up the total, which is positive
  pub read_text_files-total :
      (ws : Workspace) (s : D.State) (max_bytes : ℕ) (paths : List Bytes) (r : ReadFilesResult)
      → read_text_files D sha256 ws s paths max_bytes ≡ ok r
      → (r.successes + r.failures ≡ r.total) × (0 < r.total)
  unfolding read_text_files
  read_text_files-total ws s max_bytes [] r e = cc e
  read_text_files-total ws s max_bytes (p ∷ paths) r e =
      let start : ReadFilesResult = record {
        files = [];
        total = length (p ∷ paths);
        successes = 0;
        failures = 0;
      } in
      let (files, total, counted) = read_all_lem ws s max_bytes (p ∷ paths) start (refl, refl) in
      let out = read_all D sha256 ws s max_bytes (p ∷ paths) start in
      let same : out ≡ r = cc e in
      let all = reads-misses out.files in
      let many = ap length files ∙ length-entries ws s max_bytes (p ∷ paths) in
      rw (← same) (omega (arith, counted.0, counted.1, all, many, total), omega (arith, total))
