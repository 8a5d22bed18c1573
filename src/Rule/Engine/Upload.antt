-- ===== src/Rule/Engine/Upload.antt =====
-- uploadActionImpl, createMomentActionImpl and canUpload of internal/mod/rule/engine.go. Parameters
-- stand for the parsers of durations and floats, for what time.Time and float64 compute with, and
-- for the requests to the server. Times are in nanoseconds.
use co_scout.Prelude.{
  ◌/◌, Bool, true, false, not, List, [], ◌∷◌, ◌++◌, Option, none, some, if◌then◌else◌, Text, codes,
  lookup,
}
use co_scout.Prelude.Int.{ℤ, pos, negsuc, ◌+ℤ◌, ◌-ℤ◌, ltb_ℤ}
use co_scout.CollectInfo.{CollectInfo, Float, Files, SaveStep, new_info, load_draft, save_draft}
use co_scout.Rule.Engine.{NamedRule}
use co_scout.Rule.Engine.Kwargs.{
  UploadLimit, Kwargs, as_text, as_texts, as_flag, as_dict, as_upload_limit, as_rule, text_entries,
  ◌>>=◌,
}

-- What the server answers: how often a rule was hit by a device, or by all if there is none named.
abbrev pub Count : Type 0
Count = NamedRule → Text → Option ℤ

-- The step for one limit: an answer, or none and the next limit is looked at.
check_limit : Option ℤ → Option ℤ → Option Bool
check_limit none count = none
check_limit (some times) none = some true
check_limit (some times) (some count) = if ltb_ℤ count times then none else some false

unfoldable pub can_upload : Count → UploadLimit → NamedRule → Text → Bool
unfolding check_limit
can_upload count limit rule device_name = elim (check_limit limit.device (count rule device_name)) [
  | some answer ↦ answer
  | none ↦ elim (check_limit limit.global (count rule [])) [ some answer ↦ answer | none ↦ true ]
]

-- What is told to the server: the rule, the device, and whether there is an upload.
pub record Hit : Type 0 where
  pub rule : NamedRule
  pub device_name : Text
  pub uploads : Bool

pub record UploadArgs : Type 0 where
  pub before : ℤ
  pub after : ℤ
  pub title : Text
  pub description : Text
  pub labels : List Text
  pub extra_files : List Text
  pub white_list : List Text
  pub trigger_ts : ℤ
  pub project_name : Text
  pub rule_name : Text
  pub rule_display_name : Text
  pub collect_info_id : Text
  pub limit : UploadLimit
  pub rule : NamedRule

pub record MomentArgs : Type 0 where
  pub collect_info_id : Text
  pub title : Text
  pub description : Text
  pub create_task : Bool
  pub sync_task : Bool
  pub assignee : Text
  pub custom_fields : List (Text × Text)
  pub rule_code : Text
  pub trigger_ts : ℤ

-- `Unix` of a time: its whole seconds, rounded down.
unfoldable pub unix : ℤ → ℤ
unix (pos n) = pos (n / 1000000000)
unix (negsuc n) = negsuc (n / 1000000000)

-- Where the drafts are saved: which calls fail, and the names that are made up.
pub record Disk : Type 0 where
  pub fails : SaveStep → Bool
  pub temp : Text
  pub fresh : Text
  pub folder : Text

-- The draft with an identifier, or a new collect info.
unfoldable pub draft_of : Disk → Text → Files → CollectInfo
draft_of disk id files = elim (load_draft disk.folder files id) [
  | none ↦ new_info id
  | some info ↦ info
]

module _ (parse_duration : Text → Option ℤ) (parse_float : Text → Option Float)
    (time_of_float : Float → ℤ) (float_sec : ℤ → Float) where
  -- The checks of the arguments, in their order; nothing: an error.
  unfoldable pub upload_args : Kwargs → Option UploadArgs
  unfolding as_text as_texts as_upload_limit as_rule
  upload_args kwargs = do
    before_str ← as_text (lookup (codes "before") kwargs)
    before ← parse_duration before_str
    after_str ← as_text (lookup (codes "after") kwargs)
    after ← parse_duration after_str
    title ← as_text (lookup (codes "title") kwargs)
    description ← as_text (lookup (codes "description") kwargs)
    labels ← as_texts (lookup (codes "labels") kwargs)
    extra_files ← as_texts (lookup (codes "extra_files") kwargs)
    white_list ← as_texts (lookup (codes "white_list") kwargs)
    ts_str ← as_text (lookup (codes "ts") kwargs)
    ts ← parse_float ts_str
    project_name ← as_text (lookup (codes "project_name") kwargs)
    rule_name ← as_text (lookup (codes "rule_name") kwargs)
    rule_display_name ← as_text (lookup (codes "rule_display_name") kwargs)
    collect_info_id ← as_text (lookup (codes "collect_info_id") kwargs)
    limit ← as_upload_limit (lookup (codes "upload_limit") kwargs)
    rule ← as_rule (lookup (codes "rule") kwargs)
    some (record {
      before = before;
      after = after;
      title = title;
      description = description;
      labels = labels;
      extra_files = extra_files;
      white_list = white_list;
      trigger_ts = time_of_float ts;
      project_name = project_name;
      rule_name = rule_name;
      rule_display_name = rule_display_name;
      collect_info_id = collect_info_id;
      limit = limit;
      rule = rule;
    })

  -- The draft as an upload fills it in.
  unfoldable pub with_upload : UploadArgs → Bool → CollectInfo → CollectInfo
  unfolding unix
  with_upload a uploads info =
      let start_time = a.trigger_ts -ℤ a.before in
      let end_time = a.trigger_ts +ℤ a.after in
      record info {
        project_name = a.project_name;
        titles = some (record { title = a.title; description = a.description });
        labels = a.labels;
        diagnosis_task = some (record {
          rule_name = a.rule_name;
          rule_display_name = a.rule_display_name;
          trigger_time = float_sec a.trigger_ts;
          start_time = float_sec start_time;
          end_time = float_sec end_time;
        });
        cut = some (record {
          extra_files = a.extra_files;
          start = unix start_time;
          end = unix end_time;
          white_list = a.white_list;
        });
        skip = not uploads;
      }

  -- What follows the checks: the hit is told to the server, whose error is only logged.
  unfoldable pub run_upload :
      Disk → Count → Text → UploadArgs → Files × List Hit → (Files × List Hit) × Bool
  run_upload disk count device_name a (files, hits) =
      let uploads = can_upload count a.limit a.rule device_name in
      let info = with_upload a uploads (draft_of disk a.collect_info_id files) in
      let (files', saved) = save_draft disk.fails disk.temp disk.fresh disk.folder info files in
      (
        (
          files',
          hits ++ record { rule = a.rule; device_name = device_name; uploads = uploads } ∷ [],
        ),
        saved,
      )

  unfoldable pub upload_action_impl :
      Disk → Count → Text → Kwargs → Files × List Hit → (Files × List Hit) × Bool
  unfolding upload_args run_upload
  upload_action_impl disk count device_name kwargs w = elim (upload_args kwargs) [
    | none ↦ (w, false)
    | some a ↦ run_upload disk count device_name a w
  ]

  unfoldable pub moment_args : Kwargs → Option MomentArgs
  unfolding as_text as_flag as_dict text_entries
  moment_args kwargs = do
    collect_info_id ← as_text (lookup (codes "collect_info_id") kwargs)
    title ← as_text (lookup (codes "title") kwargs)
    description ← as_text (lookup (codes "description") kwargs)
    create_task ← as_flag (lookup (codes "create_task") kwargs)
    sync_task ← as_flag (lookup (codes "sync_task") kwargs)
    assignee ← as_text (lookup (codes "assignee") kwargs)
    custom_fields ← as_dict (lookup (codes "custom_fields") kwargs)
    rule_code ← as_text (lookup (codes "rule_code") kwargs)
    ts_str ← as_text (lookup (codes "ts") kwargs)
    ts ← parse_float ts_str
    some (record {
      collect_info_id = collect_info_id;
      title = title;
      description = description;
      create_task = create_task;
      sync_task = sync_task;
      assignee = assignee;
      custom_fields = text_entries custom_fields;
      rule_code = rule_code;
      trigger_ts = time_of_float ts;
    })

  unfoldable pub with_moment : MomentArgs → CollectInfo → CollectInfo
  with_moment a info = record info {
    moments =
        info.moments
        ++ record {
          title = a.title;
          description = a.description;
          timestamp = float_sec a.trigger_ts;
          start_time = float_sec a.trigger_ts;
          custom_fields = a.custom_fields;
          code = a.rule_code;
          create_task = a.create_task;
          sync_task = a.sync_task;
          assign_to = a.assignee;
        }
          ∷ [];
  }

  unfoldable pub run_create_moment : Disk → MomentArgs → Files → Files × Bool
  run_create_moment disk a files =
      save_draft disk.fails disk.temp disk.fresh disk.folder
        (with_moment a (draft_of disk a.collect_info_id files)) files

  unfoldable pub create_moment_action_impl : Disk → Kwargs → Files → Files × Bool
  unfolding moment_args run_create_moment
  create_moment_action_impl disk kwargs files = elim (moment_args kwargs) [
    | none ↦ (files, false)
    | some a ↦ run_create_moment disk a files
  ]
