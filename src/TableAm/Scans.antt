-- ===== src/TableAm/Scans.antt =====
-- The scan descriptors that src/pgducklake_table_am.cpp allocates and frees.
use pg_ducklake_next.Base.{
  ℕ, suc, ◌+◌, ◌≡◌, ◌≢◌, refl, ap, subst, ◌∙◌, false, ◌==◌, if◌then◌else◌, Option, none, some, List,
  [], ◌∷◌, map, length, All, Bool-cases, inl, inr, ==_iff, ==_refl, arith,
}
use pg_ducklake_next.Base.Result.{Result, ok, ◌>>=◌, >>=-eq-ok, ok-injective, fold_result}
use pg_ducklake_next.TableAm.{
  Error, Host, ScanDesc, run_index_fetch, run_row, run_modify, run_ddl, run_executor, Answer,
  Memory, ScanCall, scan_begin, scan_end, scan_rescan, scan_getnextslot, Call, slot_callbacks, scan,
  index_fetch, row, modify, ddl, size_of, relation_needs_toast, estimate_size, executor, parallel,
  pfree, run_scan, run, session,
}

module _ (H : Host) where
  -- `palloc` returns no address that is in use.
  abbrev pub IsFresh : Type 0
  IsFresh = (used : List ℕ) → All (λ a. a ≢ H.palloc used) used

  -- The descriptor at an address.
  abbrev pub scan_at : ℕ → List (ℕ × ScanDesc H) → Option (ScanDesc H)
  scan_at a [] = none
  scan_at a ((b, d) ∷ scans) = let rest = scan_at a scans in if b == a then some d else rest

  abbrev pub scan_begins : ScanCall H → ℕ
  scan_begins (scan_begin relation snapshot nkeys key parallel_scan flags) = 1
  scan_begins (scan_end a) = 0
  scan_begins scan_rescan = 0
  scan_begins scan_getnextslot = 0

  abbrev pub scan_ends : ScanCall H → ℕ
  scan_ends (scan_begin relation snapshot nkeys key parallel_scan flags) = 0
  scan_ends (scan_end a) = 1
  scan_ends scan_rescan = 0
  scan_ends scan_getnextslot = 0

  -- The number of scans that a call begins, and ends.
  abbrev pub begins_of : Call H → ℕ
  begins_of (scan c) = scan_begins c
  begins_of slot_callbacks = 0
  begins_of (index_fetch c) = 0
  begins_of (row c) = 0
  begins_of (modify c) = 0
  begins_of (ddl c) = 0
  begins_of size_of = 0
  begins_of relation_needs_toast = 0
  begins_of (estimate_size e) = 0
  begins_of (executor c) = 0
  begins_of (parallel c) = 0

  abbrev pub ends_of : Call H → ℕ
  ends_of (scan c) = scan_ends c
  ends_of slot_callbacks = 0
  ends_of (index_fetch c) = 0
  ends_of (row c) = 0
  ends_of (modify c) = 0
  ends_of (ddl c) = 0
  ends_of size_of = 0
  ends_of relation_needs_toast = 0
  ends_of (estimate_size e) = 0
  ends_of (executor c) = 0
  ends_of (parallel c) = 0

  abbrev pub total : (Call H → ℕ) → List (Call H) → ℕ
  total f [] = 0
  total f (c ∷ calls) = f c + total f calls

  -- The call does not end that scan.
  abbrev pub Spares : ℕ → Call H → Type 0
  Spares a c = c ≢ scan (scan_end a)

  length-pfree :
      (p : ℕ) (scans scans' : List (ℕ × ScanDesc H))
      → pfree H p scans ≡ ok scans'
      → suc (length scans') ≡ length scans
  unfolding pfree
  length-pfree p [] scans' h = cc
  length-pfree p ((a, d) ∷ scans) scans' h = elim (Bool-cases (a == p)) [
    | inl here ↦ rw (← ok-injective (rw here at h)) refl
    | inr elsewhere ↦
        let (l, freed, done) = >>=-eq-ok (pfree H p scans) _ (rw elsewhere at h) in
        rw (← ok-injective done) (omega (arith, length-pfree p scans l freed))
  ]

  scan_at-pfree :
      (p a : ℕ) (scans scans' : List (ℕ × ScanDesc H))
      → p ≢ a
      → pfree H p scans ≡ ok scans'
      → scan_at a scans' ≡ scan_at a scans
  unfolding pfree
  scan_at-pfree p a [] scans' other h = cc
  scan_at-pfree p a ((b, d) ∷ scans) scans' other h = elim (Bool-cases (b == p)) [
    | inl here ↦
        let e : b ≡ p = (==_iff b p).0 here in
        let missed : (b == a) ≡ false = ground (arith, other) in
        rw (← ok-injective (rw here at h), missed) refl
    | inr elsewhere ↦
        let (l, freed, done) = >>=-eq-ok (pfree H p scans) _ (rw elsewhere at h) in
        rw (← ok-injective done, scan_at-pfree p a scans l other freed) refl
  ]

  -- What a call does to the open scans: it counts, and each scan stays as it is until it is ended.
  record Step (c : Call H) (m m' : Memory H) : Type 0 where
    count : length m'.scans + ends_of c ≡ length m.scans + begins_of c
    kept :
        (a : ℕ) (d : ScanDesc H)
        → Spares a c
        → scan_at a m.scans ≡ some d
        → scan_at a m'.scans ≡ some d

  Step-same :
      (c : Call H) (m m' : Memory H) → ends_of c ≡ begins_of c → m'.scans ≡ m.scans → Step c m m'
  Step-same c m m' balanced same = record {
    count = rw (same, balanced) refl;
    kept = λ a d spares found. rw same found;
  }

  Step-answer :
      (c : Call H) (m : Memory H) (answer : Result Error Answer) (r : Answer × Memory H)
      → ends_of c ≡ begins_of c
      → (answer >>= λ a. ok (a, m)) ≡ ok r
      → Step c m r.1
  Step-answer c m answer r balanced h =
      let (a, answered, done) = >>=-eq-ok answer _ h in
      Step-same c m r.1 balanced (rw (← ok-injective done) refl)

  not_used :
      (a q : ℕ) (d : ScanDesc H) (scans : List (ℕ × ScanDesc H))
      → All (λ b. b ≢ q) (map (λ s. s.0) scans)
      → scan_at a scans ≡ some d
      → (q == a) ≡ false
  not_used a q d [] free found = cc
  not_used a q d ((b, e) ∷ scans) free found = elim (Bool-cases (b == a)) [
    | inl here ↦ let same : b ≡ a = (==_iff b a).0 here in ground (arith, free.0)
    | inr elsewhere ↦ not_used a q d scans free.1 (rw elsewhere at found)
  ]

  run_scan-Step :
      IsFresh
      → (c : ScanCall H) (m : Memory H) (r : Answer × Memory H) → run_scan H c m ≡ ok r
      → Step (scan c) m r.1
  unfolding run_scan
  run_scan-Step fresh (scan_begin relation snapshot nkeys key parallel_scan flags) m r h =
      subst
        (λ (x : Answer × Memory H).
          Step (scan (scan_begin relation snapshot nkeys key parallel_scan flags)) m x.1)
        (ok-injective h)
        (record {
          count = omega arith;
          kept = λ a d spares found.
              rw
                (not_used a (H.palloc (map (λ s. s.0) m.scans)) d m.scans
                  (fresh (map (λ s. s.0) m.scans)) found)
                found;
        })
  run_scan-Step fresh (scan_end p) m r h =
      let (scans, freed, done) = >>=-eq-ok (pfree H p m.scans) _ h in
      subst (λ (x : Answer × Memory H). Step (scan (scan_end p)) m x.1) (ok-injective done)
        (record {
          count = omega (arith, length-pfree p m.scans scans freed);
          kept = λ a d spares found.
              scan_at-pfree p a m.scans scans (λ e. spares (ap (λ q. scan (scan_end q)) e)) freed
              ∙ found;
        })
  run_scan-Step fresh scan_rescan m r h = cc
  run_scan-Step fresh scan_getnextslot m r h = cc

  run-Step :
      IsFresh
      → (c : Call H) (m : Memory H) (r : Answer × Memory H) → run H c m ≡ ok r
      → Step c m r.1
  unfolding run
  run-Step fresh slot_callbacks m r h =
      Step-same slot_callbacks m r.1 refl (rw (← ok-injective h) refl)
  run-Step fresh (scan c) m r h = run_scan-Step fresh c m r h
  run-Step fresh (index_fetch c) m r h = Step-answer (index_fetch c) m (run_index_fetch c) r refl h
  run-Step fresh (row c) m r h = Step-answer (row c) m (run_row c) r refl h
  run-Step fresh (modify c) m r h = Step-answer (modify c) m (run_modify c) r refl h
  run-Step fresh (ddl c) m r h = Step-answer (ddl c) m (run_ddl c) r refl h
  run-Step fresh size_of m r h = Step-same size_of m r.1 refl (rw (← ok-injective h) refl)
  run-Step fresh relation_needs_toast m r h =
      Step-same relation_needs_toast m r.1 refl (rw (← ok-injective h) refl)
  run-Step fresh (estimate_size e) m r h =
      Step-same (estimate_size e) m r.1 refl (rw (← ok-injective h) refl)
  run-Step fresh (executor c) m r h = Step-answer (executor c) m (run_executor c) r refl h
  run-Step fresh (parallel c) m r h =
      Step-answer (parallel c) m (H.table_block_parallelscan c) r refl h

  session-Step :
      IsFresh
      → (calls : List (Call H)) (m m' : Memory H) → session H m calls ≡ ok m'
      → (length m'.scans + total ends_of calls ≡ length m.scans + total begins_of calls)
        × ((a : ℕ) (d : ScanDesc H)
            → All (Spares a) calls
            → scan_at a m.scans ≡ some d
            → scan_at a m'.scans ≡ some d)
  unfolding session fold_result
  session-Step fresh [] m m' h = rw (← ok-injective h) (refl, λ a d spared found. found)
  session-Step fresh (c ∷ calls) m m' h =
      let (t, first, rest) = >>=-eq-ok (run H c m >>= λ r. ok r.1) _ h in
      let (r, answered, done) = >>=-eq-ok (run H c m) _ first in
      let step : Step c m t =
        subst (Step c m) (ok-injective done) (run-Step fresh c m r answered) in
      let (count, kept) = session-Step fresh calls t m' rest in
      (
        omega (arith, step.count, count),
        λ a d spared found. kept a d spared.1 (step.kept a d spared.0 found),
      )

  -- If `palloc` returns no address that is in use and a scan is begun and the calls after it go
  -- through without an error, then there are as many descriptors more as scans have been begun and
  -- not ended, and if none of the calls ends that scan, the descriptor at the address that the
  -- callback has returned is still the one that it made, with the relation, snapshot, number of
  -- keys, flags and parallel scan that it was called with, and without the keys.
  pub session-scan_begin :
      IsFresh
      → (relation : H.Relation) (snapshot : H.Snapshot) (nkeys : ℕ) (key : List H.ScanKey)
        (parallel_scan : Option H.ParallelTableScanDesc) (flags : ℕ) (calls : List (Call H))
        (m m' : Memory H)
      → session H m (scan (scan_begin relation snapshot nkeys key parallel_scan flags) ∷ calls)
        ≡ ok m'
      → (length m'.scans + total ends_of calls ≡ length m.scans + 1 + total begins_of calls)
        × (All (Spares (H.palloc (map (λ s. s.0) m.scans))) calls
            → scan_at (H.palloc (map (λ s. s.0) m.scans)) m'.scans
              ≡ some (record {
                rs_rd = relation;
                rs_snapshot = snapshot;
                rs_nkeys = nkeys;
                rs_key = none;
                rs_flags = flags;
                rs_parallel = parallel_scan;
              }))
  unfolding session fold_result run run_scan
  session-scan_begin fresh relation snapshot nkeys key parallel_scan flags calls m m' h =
      let a = H.palloc (map (λ s. s.0) m.scans) in
      let (count, kept) = session-Step fresh calls _ m' h in
      (omega (arith, count), λ spared. kept a _ spared (rw (==_refl a) refl))
