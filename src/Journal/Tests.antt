-- ===== src/Journal/Tests.antt =====
-- The journal over a cache over one device that is a table of blocks.
use base_nexs.Common.{
  ℕ, ◌≡◌, ◌≢◌, refl, Bool, true, false, Option, some, some_inj, List, [], ◌∷◌, if◌then◌else◌, arith,
  le_at,
}
use mathlib.Core.Path.{subst}
use base_nexs.Blk.{Driver, State, Dev, blank, find_dev, cache_find, find_from}
use base_nexs.Blk.Coherence.{same, IsDisk, content, IsCoherent}
use base_nexs.Journal.{Blocks, Journal, hdr_of, journal_magic, journal_log, journal_replay}
use base_nexs.Journal.Store.{IsBlocks}
use base_nexs.Journal.Layout.{HasRoom, IsInside}
use base_nexs.Journal.Scan.{after_records, IsFresh}
use base_nexs.Journal.Replay.{journal_replay-after_records}
use base_nexs.Journal.Logged.{IsReady}
use base_nexs.Journal.Undo.{journal_replay-undoes}
use base_nexs.Journal.Committed.{journal_replay-committed}
use base_nexs.Journal.{journal_commit}
use base_nexs.Journal.OverCache.{cache_blocks, cache-IsBlocks}

abbrev Table : Type 0
Table = ℕ → ℕ → Option (List ℕ)

abbrev table_driver : Driver Table
table_driver = record {
  read = λ x dev lba. x dev lba;
  write = λ x dev lba bytes dev' lba'. if same dev lba dev' lba' then some bytes else x dev' lba';
}

table-IsDisk : IsDisk table_driver
table-IsDisk = record { stored = λ x dev lba dev' lba' bytes. refl }

abbrev devices : List Dev
devices = record { id = 1; reads = true; writes = true } ∷ []

-- Device 1 has a 9 in block 5, and nothing is cached.
abbrev start : State Table
start = record {
  cache = λ _. blank;
  clock = 0;
  devs = devices;
  disk = λ dev lba. if same dev lba 1 5 then some (9 ∷ []) else some [];
  notes = [];
}

abbrev cached : IsBlocks (cache_blocks table_driver)
cached = cache-IsBlocks table_driver table-IsDisk devices

start_good : IsCoherent table_driver start × (start.devs ≡ devices)
start_good = (
  record {
    unique = λ dev lba i j h k e f. cc;
    sound = λ i h. record { clean = λ e f. cc; readable = λ e. cc; writable = λ e f. cc };
  },
  refl,
)

-- A transaction on a journal of four records at block 100.
abbrev journal : Journal
journal = record {
  dev = 1;
  base_lba = 100;
  n_blocks = 4;
  write_pos = 0;
  seq = 1;
  in_txn = true;
  commit_count = 0;
  notes = [];
}

unmarked_block :
    (b : Bool) (bytes : List ℕ)
    → (if b then some (9 ∷ []) else some []) ≡ some bytes
    → (hdr_of bytes).magic ≢ journal_magic
unfolding hdr_of le_at
unmarked_block true bytes e =
    subst (λ x. (hdr_of x).magic ≢ journal_magic) (some_inj _ _ e) (λ m. omega arith)
unmarked_block false bytes e =
    subst (λ x. (hdr_of x).magic ≢ journal_magic) (some_inj _ _ e) (λ m. omega arith)

start-IsFresh : IsFresh journal (cached.content start)
unfolding cache-IsBlocks content cache_find find_from find_dev
start-IsFresh pos bytes h e = unmarked_block _ bytes e

room : HasRoom journal
room = record { few = omega arith; within = omega arith }

ready : IsReady cached journal start 1 5
unfolding cache-IsBlocks find_dev
ready = record {
  room = room;
  starts = refl;
  opened = refl;
  seq_fits = omega arith;
  dev_fits = omega arith;
  lba_fits = omega arith;
  good = start_good;
  journal_open = (refl, refl);
  block_open = (refl, refl);
  outside = λ i. omega arith;
  fresh = start-IsFresh;
}

abbrev blocks : Blocks (State Table)
blocks = cache_blocks table_driver

journal_replay-undoes_example :
    (j1 : Journal) × ((s1 : State Table) × ((journal_log blocks journal start 1 5 ≡ some (j1, s1))
        × ((a b : ℕ)
            → (IsInside journal a b → ⊥)
            → cached.content ((journal_replay blocks j1 (blocks.blk_write s1 1 5 (7 ∷ []))).1) a b
              ≡ cached.content start a b)))
unfolding cache-IsBlocks content cache_find find_from find_dev
journal_replay-undoes_example =
    journal_replay-undoes blocks cached journal start 1 5 (9 ∷ []) (7 ∷ []) ready (omega arith) refl

journal_replay-after_records_example :
    let s' = (journal_replay blocks journal start).1 in
    cached.Good s'
    × (((d l : ℕ) → IsInside journal d l → cached.content s' d l ≡ cached.content start d l)
        × ((d l : ℕ)
            → cached.content s' d l
              ≡ after_records 4 0 journal (cached.content start) d l (cached.content start d l)))
unfolding cache-IsBlocks
journal_replay-after_records_example =
    journal_replay-after_records blocks cached journal start room (omega arith) start_good
      (λ pos bytes h e m z. absurd (start-IsFresh pos bytes h e m))

journal_replay-committed_example :
    (j1 : Journal) × ((s1 : State Table) × ((journal_log blocks journal start 1 5 ≡ some (j1, s1))
        × ((j2 : Journal) × ((s2 : State Table) × ((journal_commit blocks j1
                    (blocks.blk_write s1 1 5 (7 ∷ []))
                  ≡ some (j2, s2))
                × (cached.content ((journal_replay blocks j2 s2).1) 1 5 ≡ some (9 ∷ [])))))))
unfolding cache-IsBlocks content cache_find find_from find_dev
journal_replay-committed_example =
    journal_replay-committed blocks cached journal start 1 5 (9 ∷ []) (7 ∷ []) ready (omega arith)
      (omega arith) (λ e. omega arith) refl
