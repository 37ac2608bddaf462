-- ===== src/Tests/Reindex.antt =====
-- A column with an old index of 16 bits, of which one chunk is left.
use blockchain_parity_db.Prelude.{
  ℕ, ◌+◌, ◌≤◌, ◌<◌, ◌≡◌, refl, true, false, none, some, [], ◌∷◌, ◌==◌, if◌then◌else◌, arith,
}
use blockchain_parity_db.Word.{shl}
use blockchain_parity_db.Index.TableId
use blockchain_parity_db.Index.Table.{create_new, total_chunks}
use blockchain_parity_db.Column.{HashColumn}
use blockchain_parity_db.Column.Compression.{no_compression_at_all}
use blockchain_parity_db.Column.Reindex.{reindex}
use blockchain_parity_db.Column.Reindex.Progress.{
  entries_of, batches, reindex-progress, batches-progress,
}
use blockchain_parity_db.Tests.Data.{table, overlays}

abbrev reindexing : HashColumn
reindexing = record {
  index = create_new 17;
  value = [];
  queue = table ∷ [];
  progress = 65535;
  preimage = false;
  uniform_keys = true;
  collect_stats = false;
  ref_counted = false;
  salt = [];
  compression = no_compression_at_all;
  db_version = 8;
}

chunks_of-table : total_chunks (TableId.index_bits 16) ≡ 65536
unfolding total_chunks TableId.index_bits shl
chunks_of-table = refl

reindex-progress_example :
    (n : ℕ) × (0 < n)
    × (65535 + n ≤ total_chunks (TableId.index_bits 16))
    × (reindex reindexing overlays ≡ (
      record {
        drop_index_id = if 65535 + n == total_chunks (TableId.index_bits 16) then some 16 else none;
        batch = entries_of table overlays 65535 n;
      },
      record reindexing { progress = 65535 + n },
    ))
reindex-progress_example =
    reindex-progress reindexing overlays table [] refl (omega (arith, chunks_of-table))

batches-progress_example :
    (batches 4 reindexing overlays).progress ≡ total_chunks (TableId.index_bits 16)
batches-progress_example =
    batches-progress 4 reindexing overlays table [] refl (omega (arith, chunks_of-table))
      (omega (arith, chunks_of-table))
