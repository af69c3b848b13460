-- ===== src/LogReader/Checked.antt =====
-- src/log_reader.cpp: what is known of a transaction that the reader returns, from any file.
use stldb.Prelude.{ℕ, Option, none, some, List}
use stldb.LogReader.{LogReader, Next, transaction, recover_from_log_failed}
use stldb.LogReader.Parsed.{Sound}

abbrev SoundNext : List ℕ → Option (LogReader × Next) → Type 0
SoundNext file none = Unit {0}
SoundNext file (some (r, transaction lsn)) = Sound file r lsn
SoundNext file (some (r, recover_from_log_failed f)) = Unit {0}
