-- ===== src/Slave/Files.antt =====
-- FileManager of internal/master/file_manager.go: from a file's path to a reader, with
-- DownloadSlaveFileWithSize of internal/master/client.go. Parameters stand for the file system
-- (whether a path opens) and for the HTTP exchange (the status that comes back, if one does). A
-- request that is built from a path and a size does not fail to be built.
mod Tests
use co_scout.Prelude.{
  ◌==◌, ◌||◌, ◌↔◌, ℕ, ◌≡◌, refl, ◌∙◌, ap, Bool, true, false, not, ◌&&◌, Option, none, some, ltb,
  if◌then◌else◌, Text, arith, Option-cases, inl, inr, has_prefix, has_prefix_append, ◌++◌,
}
use co_scout.Prelude.Int.{ℤ, pos, ltb_ℤ}
use co_scout.Slave.Paths.{
  Parsed, parsed, rejected, PathError, scheme, absolute, is_slave_file, parse_slave_file_path,
  format_slave_file_path, is_valid_slave_id,
}
use co_scout.Slave.Paths.RoundTrip.{parse-format_valid}
use co_scout.Slave.Registry.{SlaveInfo, Registry, get_slave, is_online}

pub record FileInfo : Type 0 where
  pub path : Text
  pub size : ℤ
  pub sha256 : Text
  pub file_name : Text

-- Where the bytes of a reader come from: `limited` is NewLimitedReadCloser around it.
pub data Reader : Type 0 where
  local_file : Text → Reader
  slave_file : SlaveInfo → Text → ℤ → Reader
  limited : Reader → ℤ → Reader

pub data FileError : Type 0 where
  bad_path : PathError → FileError
  slave_not_found slave_not_online open_failed send_failed slave_file_too_large
        slave_file_unavailable slave_request_failed :
      FileError

pub data Opened : Type 0 where
  opened : Reader → Opened
  refused : FileError → Opened

is_slave_file-format : (id path : Text) → is_slave_file (format_slave_file_path id path) ≡ true
unfolding is_slave_file format_slave_file_path
is_slave_file-format id path = has_prefix_append scheme (id ++ absolute path)

parsed_path :
    (info : FileInfo) (id path : Text)
    → info.path ≡ format_slave_file_path id path
    → is_valid_slave_id id ≡ true
    → parse_slave_file_path info.path ≡ parsed id (absolute path)
parsed_path info id path e v = ap parse_slave_file_path e ∙ parse-format_valid id path v

-- The tests of the answer to a download request, in their order.
answer : Reader → Option ℕ → Opened
answer r none = refused send_failed
answer r (some status) =
    if status == 204
    then refused slave_file_too_large
    else if status == 400 || status == 403 || status == 404
    then refused slave_file_unavailable
    else if not (status == 200)
    then refused slave_request_failed
    else opened r

module _ (opens : Text → Bool) (responds : SlaveInfo → Text → ℤ → Option ℕ) where
  get_local_file_reader : Text → Opened
  get_local_file_reader path = if opens path then opened (local_file path) else refused open_failed

  download_slave_file_with_size : SlaveInfo → Text → ℤ → Opened
  unfolding answer
  download_slave_file_with_size s path max_size =
      answer (slave_file s path max_size) (responds s path max_size)

  stream : ℤ → ℤ → Text → Option SlaveInfo → Opened
  unfolding download_slave_file_with_size
  stream now max_size path none = refused slave_not_found
  stream now max_size path (some s) =
      if not (is_online now s)
      then refused slave_not_online
      else if ltb_ℤ (pos 0) max_size
      then download_slave_file_with_size s path max_size
      else download_slave_file_with_size s path (pos 0)

  stream_parsed : ℤ → Registry → ℤ → Parsed → Opened
  unfolding stream
  stream_parsed now registry max_size (rejected e) = refused (bad_path e)
  stream_parsed now registry max_size (parsed id path) =
      stream now max_size path (get_slave registry id)

  pub get_slave_file_reader_with_size : ℤ → Registry → FileInfo → ℤ → Opened
  unfolding stream_parsed
  get_slave_file_reader_with_size now registry info max_size =
      stream_parsed now registry max_size (parse_slave_file_path info.path)

  limit_reader : FileInfo → Opened → Opened
  limit_reader info (refused e) = refused e
  limit_reader info (opened r) =
      if ltb_ℤ (pos 0) info.size && not (is_slave_file info.path)
      then opened (limited r info.size)
      else opened r

  pub get_file_reader : ℤ → Registry → FileInfo → ℤ → Opened
  unfolding get_local_file_reader get_slave_file_reader_with_size limit_reader
  get_file_reader now registry info max_size = limit_reader info (
      if is_slave_file info.path
      then get_slave_file_reader_with_size now registry info max_size
      else get_local_file_reader info.path)

  -- A local file that opens is read up to its recorded size, if that is positive, and whole
  -- otherwise.
  pub get_file_reader_local :
      (now : ℤ) (registry : Registry) (info : FileInfo) (max_size : ℤ)
      → is_slave_file info.path ≡ false
      → opens info.path ≡ true
      → get_file_reader now registry info max_size ≡ (
          if ltb_ℤ (pos 0) info.size
          then opened (limited (local_file info.path) info.size)
          else opened (local_file info.path))
  unfolding get_file_reader
  get_file_reader_local now registry info max_size h o = ground arith

  -- A file at the formatted path of a valid slave id, under which a slave is registered, is
  -- streamed from that slave, at the file's path made absolute, exactly if the slave is online and
  -- answers with status 200; no other reader is opened for it, and this one is not cut to the
  -- file's recorded size. The size that is asked for is the maximal one, or 0 if that is not
  -- positive.
  pub get_file_reader_slave :
      (now : ℤ) (registry : Registry) (info : FileInfo) (max_size : ℤ) (id path : Text)
      (s : SlaveInfo) (r : Reader)
      → info.path ≡ format_slave_file_path id path
      → is_valid_slave_id id ≡ true
      → get_slave registry id ≡ some s
      → let wanted = if ltb_ℤ (pos 0) max_size then max_size else pos 0 in
        (get_file_reader now registry info max_size ≡ opened r) ↔ (
          (is_online now s ≡ true)
          × (responds s (absolute path) wanted ≡ some 200)
          × (r ≡ slave_file s (absolute path) wanted))
  unfolding get_file_reader
  get_file_reader_slave now registry info max_size id path s r e v g =
      ground (arith, ap is_slave_file e, is_slave_file-format id path, parsed_path info id path e v)

  -- No file of an unknown slave is read.
  pub get_file_reader_unknown :
      (now : ℤ) (registry : Registry) (info : FileInfo) (max_size : ℤ) (id path : Text)
      → info.path ≡ format_slave_file_path id path
      → is_valid_slave_id id ≡ true
      → get_slave registry id ≡ none
      → get_file_reader now registry info max_size ≡ refused slave_not_found
  unfolding get_file_reader
  get_file_reader_unknown now registry info max_size id path e v g =
      ground (arith, ap is_slave_file e, is_slave_file-format id path, parsed_path info id path e v)
