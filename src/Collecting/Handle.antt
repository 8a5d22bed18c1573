-- ===== src/Collecting/Handle.antt =====
-- handleCollectInfo of internal/mod/rule/handler.go with what it calls. The time, the local files
-- that ComputeUploadFiles finds, the answers of the slaves, the path functions, what float64
-- computes and which calls fail are given. The handler returns early where a function here gives
-- a `Verdict` other than `collects`.
use co_scout.Prelude.{
  ℕ, Bool, true, false, List, [], ◌∷◌, ◌++◌, Option, none, some, if◌then◌else◌, Text, text_eq,
  insert, map,
}
use co_scout.Prelude.Int.{ℤ, pos, ltb_ℤ}
use co_scout.CollectInfo as Info
use co_scout.CollectInfo.{CollectInfo, Cut, Float}
use co_scout.FileState.{FileState, FileStateHandler, Handler, empty_state}
use co_scout.FileState.Files.{FileFilter, files, filter_is_collecting, filter_time}
use co_scout.FileState.Update.{FileSystem, Conf, update_collect_dirs, matches_whitelist}
use co_scout.RecordCache as Cache
use co_scout.RecordCache.{RecordCache, FileInfo, Host, WriteStep}
use co_scout.Slave.Paths.{format_slave_file_path}
use co_scout.Slave.Registry.Codes.{
  TaskResponse, task_responses_time_window_error_code, invalid_time_window,
}
use co_scout.SymWalk as Walk
use co_scout.TimeWindow.{Time, Kind, TimeWindowError, validate_time_window_at}
use co_scout.Collecting.RuleFiles.{Paths, FileInfos, get_real_file_info, compute_rule_file_infos}

pub record SlaveFile : Type 0 where
  pub slave_id : Text
  pub info : FileInfo

-- A response may be nil.
pub record SlaveAnswer : Type 0 where
  pub response : TaskResponse
  pub files : List SlaveFile

pub record Floats : Type 0 where
  pub is_millis : Float → Bool
  pub div_1000 : Float → Float
  pub sub : Float → Float → Float

pub record World : Type 0 where
  pub now : Time
  pub unix_milli : ℤ
  pub has_birth_time : Bool
  pub upload_files : Option (List (Text × ℤ))
  pub slaves : Option (List (Option SlaveAnswer))
  pub abs : Text → Option Text
  pub fs : FileSystem
  pub handlers : List Handler
  pub birth_times : Text → Option (ℤ × ℤ)
  pub path_match : Text → Text → Option Bool
  pub sort_slice : (FileState → FileState → Bool) → List FileState → List FileState
  pub disk : Walk.Disk
  pub paths : Paths
  pub fuel : ℕ
  pub floats : Floats
  pub host : Host
  pub fails : WriteStep → Bool
  pub temp : Text
  pub writes_states : Bool
  pub info_folder : Text
  pub removes : Bool
  pub publishes : Bool

-- What the handler reads and changes. `published` are the messages to the collector, newest first.
pub record System : Type 0 where
  pub infos : Info.Files
  pub file_states : FileStateHandler
  pub caches : Cache.Disk
  pub published : List Text

pub data Verdict : Type 0 where
  drops keeps : Verdict
  collects : Cut → FileInfos → Verdict

module _ (world : World) where
  unfoldable pub is_invalid : Option TimeWindowError → Bool
  is_invalid none = false
  is_invalid (some e) = elim e.kind [
    | Kind.invalid_time_window ↦ true
    | Kind.time_window_not_ready ↦ false
  ]

  local_state : Text × ℤ → FileState
  local_state (path, size) = record empty_state { size = size; pathname = path }

  upload_white_list_filter : List Text → FileFilter
  upload_white_list_filter white_list p s = matches_whitelist world.path_match white_list p

  found_states : Option (List (Text × ℤ)) → Option (List FileState)
  unfolding local_state
  found_states none = none
  found_states (some found) = some (map local_state found)

  unfoldable pub updated_states :
      Cut → FileStateHandler × Bool → FileStateHandler × Option (List FileState)
  unfolding upload_white_list_filter
  updated_states cut (f, false) = (f, none)
  updated_states cut (f, true) = (
    f,
    some (
        files world.sort_slice
          (filter_is_collecting
            ∷ filter_time cut.start cut.end
            ∷ upload_white_list_filter cut.white_list
            ∷ [])
          f),
  )

  -- The states of the files to upload; none, if they cannot be told.
  unfoldable pub local_states :
      Conf → Cut → FileStateHandler → FileStateHandler × Option (List FileState)
  unfolding found_states updated_states
  local_states conf cut f =
      if world.has_birth_time
      then (f, found_states world.upload_files)
      else updated_states cut (
          update_collect_dirs world.abs world.fs world.handlers world.birth_times world.path_match
            world.writes_states cut.white_list conf f)

  unfoldable pub response_of : Option SlaveAnswer → Option TaskResponse
  response_of none = none
  response_of (some a) = some a.response

  -- The files of the answers that succeeded.
  unfoldable pub successful_slave_responses : List (Option SlaveAnswer) → List SlaveFile
  successful_slave_responses [] = []
  successful_slave_responses (none ∷ rest) = successful_slave_responses rest
  successful_slave_responses (some a ∷ more) =
      let rest = successful_slave_responses more in
      if a.response.success then a.files ++ rest else rest

  unfoldable pub slave_files : List (Option SlaveAnswer) → Option (List SlaveFile)
  unfolding response_of successful_slave_responses
  slave_files answers =
      if text_eq (task_responses_time_window_error_code (map response_of answers))
        invalid_time_window
      then none
      else some (successful_slave_responses answers)

  -- None, if a slave rejected the window.
  unfoldable pub request_slaves : Option (List (Option SlaveAnswer)) → Option (List SlaveFile)
  unfolding slave_files
  request_slaves none = some []
  request_slaves (some answers) = slave_files answers

  unfoldable pub real_state : Option (Text × Walk.Info) → List FileState
  real_state none = []
  real_state (some (real, info)) =
      record empty_state { size = pos info.size; is_dir = info.is_dir; pathname = real } ∷ []

  extra_state : Option Text → List FileState
  unfolding real_state
  extra_state none = []
  extra_state (some path) =
      if world.fs.readable path
      then real_state (get_real_file_info world.disk world.paths path)
      else []

  unfoldable pub extra_states : List Text → List FileState
  unfolding extra_state
  extra_states [] = []
  extra_states (raw ∷ raws) = extra_state (world.abs raw) ++ extra_states raws

  -- The slaves' files, over the local ones. The formatted path is never empty.
  unfoldable pub add_slave_files : List SlaveFile → FileInfos → FileInfos
  add_slave_files [] all = all
  add_slave_files (s ∷ ss) all =
      let remote = format_slave_file_path s.slave_id s.info.path in
      add_slave_files ss (insert remote (record s.info { path = remote }) all)

  unfoldable pub merged : Cut → List SlaveFile → Option FileInfos → Verdict
  -- Not met with fuel enough for the walks.
  merged cut slaves none = keeps
  merged cut slaves (some locals) = collects cut (add_slave_files slaves locals)

  unfoldable pub with_slaves : Cut → List FileState → Option (List SlaveFile) → Verdict
  unfolding merged extra_states
  with_slaves cut states none = drops
  with_slaves cut states (some slaves) = merged cut slaves (
      compute_rule_file_infos world.disk world.paths world.fuel
        (states ++ extra_states cut.extra_files) [])

  unfoldable pub gathered :
      Cut → FileStateHandler × Option (List FileState) → FileStateHandler × Verdict
  unfolding with_slaves request_slaves
  gathered cut (f, none) = (f, keeps)
  gathered cut (f, some states) = (f, with_slaves cut states (request_slaves world.slaves))

  unfoldable pub in_window : Conf → Cut → FileStateHandler → FileStateHandler × Verdict
  unfolding is_invalid gathered local_states
  in_window conf cut f =
      if is_invalid (validate_time_window_at cut.start cut.end world.now)
      then (f, drops)
      else if ltb_ℤ world.now.unix cut.end
      then (f, keeps)
      else gathered cut (local_states conf cut f)

  unfoldable pub judged : Conf → Option Cut → FileStateHandler → FileStateHandler × Verdict
  unfolding in_window
  judged conf none f = (f, drops)
  judged conf (some cut) f = in_window conf cut f

  -- The handler up to the record cache.
  unfoldable pub judge : Conf → CollectInfo → FileStateHandler → FileStateHandler × Verdict
  unfolding judged
  judge conf info f = if info.skip then (f, drops) else judged conf info.cut f

  in_seconds : Float → Float
  in_seconds t = if world.floats.is_millis t then world.floats.div_1000 t else t

  -- GetStringOrDefault with one text besides the default.
  get_string_or_default : Text → Text → Text
  get_string_or_default default [] = default
  get_string_or_default default (c ∷ cs) = c ∷ cs

  no_task : Cache.Task
  no_task = record {
    should_create = false;
    name = [];
    title = [];
    description = [];
    record_name = [];
    assignee = [];
    sync_task = false;
  }

  unfoldable pub moment_to_create : Text → Text → Info.Moment → Cache.Moment
  unfolding in_seconds get_string_or_default no_task
  moment_to_create record_title rule_name moment =
      let title = get_string_or_default record_title moment.title in
      let description = get_string_or_default record_title moment.description in
      record {
        name = [];
        is_new = false;
        title = title;
        description = description;
        timestamp = in_seconds moment.timestamp;
        duration = world.floats.sub (in_seconds moment.timestamp) (in_seconds moment.start_time);
        metadata = moment.custom_fields;
        task =
            if moment.create_task
            then record no_task {
              should_create = true;
              title = title;
              description = description;
              assignee = moment.assign_to;
              sync_task = moment.sync_task;
            }
            else no_task;
        event = [];
        code = moment.code;
        rule_name = rule_name;
      }

  title_of : Option Info.Titles → Text
  title_of none = []
  title_of (some t) = t.title

  rule_name_of : Option Info.DiagnosisTask → Text
  rule_name_of none = []
  rule_name_of (some t) = t.rule_name

  unfoldable pub new_record_cache : CollectInfo → FileInfos → RecordCache
  unfolding title_of rule_name_of
  new_record_cache info all = record {
    cache_path = [];
    uploaded = false;
    skipped = false;
    event_code = [];
    project_name = info.project_name;
    timestamp = world.unix_milli;
    labels = info.labels;
    titles = info.titles;
    moments =
        map (moment_to_create (title_of info.titles) (rule_name_of info.diagnosis_task))
          info.moments;
    upload_task = [];
    diagnosis_task = info.diagnosis_task;
    original_files = all;
    uploaded_file_paths = [];
    random_postfix = [];
  }

  unfoldable pub clean : CollectInfo → System → System
  clean info sys = record sys {
    infos = (Info.clean world.fs.readable world.removes world.info_folder info.id sys.infos).0;
  }

  unfoldable pub publish : Text → System → System
  publish path sys =
      if world.publishes then record sys { published = path ∷ sys.published } else sys

  unfoldable pub after_save : CollectInfo → System → RecordCache × Cache.Disk × Bool → System
  unfolding clean publish
  after_save info sys (rc, caches, false) = record sys { caches = caches }
  after_save info sys (rc, caches, true) =
      publish rc.cache_path (clean info (record sys { caches = caches }))

  unfoldable pub carry_out : CollectInfo → System → Verdict → System
  unfolding after_save new_record_cache
  carry_out info sys drops = clean info sys
  carry_out info sys keeps = sys
  carry_out info sys (collects cut all) =
      after_save info sys
        (Cache.save world.host world.fails world.temp (new_record_cache info all) sys.caches)

  unfoldable pub handle_collect_info : Conf → CollectInfo → System → System
  unfolding judge carry_out
  handle_collect_info conf info sys =
      let judgement = judge conf info sys.file_states in
      carry_out info (record sys { file_states = judgement.0 }) judgement.1
