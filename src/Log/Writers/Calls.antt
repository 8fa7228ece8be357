-- ===== src/Log/Writers/Calls.antt =====
-- Which writers `log_write` of src/log.c calls, after a writer was added and after a level was set.
use tachyon.Prelude.{
  ℕ, ◌≡◌, refl, ◌≢◌, true, none, List, [], ◌∷◌, ◌++◌, arith, leb, if◌then◌else◌, ne→eqb, All,
}
use tachyon.Text.{Text}
use tachyon.Log.Writers.{Destination, default_level, log_add_writer, log_set_level, log_write}

abbrev pub Free : Destination → Type 0
Free d = d.writer ≡ 0

log_write-Free : (lvl : ℕ) (ds : List Destination) → All Free ds → log_write lvl ds ≡ []
unfolding log_write
log_write-Free lvl [] h = refl
log_write-Free lvl (d ∷ ds) h = rw (h.0) (log_write-Free lvl ds h.1)

-- In a table whose used entries `used` stand before its free ones, of which there is at least one,
-- `log_add_writer` of a writer other than NULL succeeds, and `log_write` then calls the writers that it
-- called before, and behind them the new one, if the level of the message is at most the default.
pub log_write-log_add_writer :
    (lvl w : ℕ) (descr : Text) (used : List Destination) (d : Destination) (ds : List Destination)
    → w ≢ 0
    → All (λ u. ¬ Free u) used
    → All Free (d ∷ ds)
    → ((log_add_writer w descr (used ++ d ∷ ds)).0 ≡ true)
      × (log_write lvl (log_add_writer w descr (used ++ d ∷ ds)).1
          ≡ log_write lvl (used ++ d ∷ ds) ++ (if leb lvl default_level then w ∷ [] else []))
unfolding log_write log_add_writer
log_write-log_add_writer lvl w descr [] d ds ne hu hf =
    rw (hf.0, ne→eqb w 0 ne, log_write-Free lvl ds hf.1) (refl, ground arith)
log_write-log_add_writer lvl w descr (u ∷ used) d ds ne hu hf =
    let (ok, calls) = log_write-log_add_writer lvl w descr used d ds ne hu.1 hf in
    rw (ne→eqb u.writer 0 hu.0) (ok, ground (arith, hu.0, calls))

-- After `log_set_level` with NULL for the destination, `log_write` calls every writer of the table, those
-- that it calls with the most urgent level, if the level of the message is at most the one set, and
-- none otherwise.
pub log_write-log_set_level :
    (lvl set : ℕ) (ds : List Destination)
    → log_write lvl (log_set_level none set ds) ≡ (if leb lvl set then log_write 0 ds else [])
unfolding log_write log_set_level
log_write-log_set_level lvl set [] = ground arith
log_write-log_set_level lvl set (d ∷ ds) = ground (arith, log_write-log_set_level lvl set ds)
