-- ===== src/Sessions/State.antt =====
-- codebridge/sessions/state.py: the stored records.
pub mod Values
pub mod Json
pub mod Store
use pycodebridge.Base.{ℕ, Bool, false, []}
use pycodebridge.Base.Text.{Text}
use pycodebridge.Base.Integers.{ℤ}
use pycodebridge.Base.Dict.{Dict}

pub record SessionState : Type 0 where
  pub repo_name : Text
  pub repo_path : Text
  pub thread_id : Text
  pub model : Text
  pub reasoning_effort : Text
  pub backend : Text
  pub worktree_path : Text
  pub task_branch : Text
  pub created_at : Text
  pub last_used_at : Text
  pub fresh_start_required : Bool

-- `SessionState(repo_name=…, repo_path=…, thread_id=…)`
abbrev pub new_session : Text → Text → Text → SessionState
new_session repo_name repo_path thread_id = record {
  repo_name = repo_name;
  repo_path = repo_path;
  thread_id = thread_id;
  model = [];
  reasoning_effort = [];
  backend = [];
  worktree_path = [];
  task_branch = [];
  created_at = [];
  last_used_at = [];
  fresh_start_required = false;
}

pub record ChannelState : Type 0 where
  pub sessions : Dict SessionState
  pub sticky : Dict Text

-- `ChannelState()`
abbrev pub empty_channel : ChannelState
empty_channel = record { sessions = []; sticky = [] }

-- A value that `_normalize_runtime_option_value` lets through.
pub data OptionValue : Type 0 where
  number : ℕ → OptionValue
  flag : Bool → OptionValue

pub record FileState : Type 0 where
  pub version : ℤ
  pub channels : Dict ChannelState
  pub dm_bindings : Dict Text
  pub runtime_options_global : Dict OptionValue
  pub runtime_options_channels : Dict (Dict OptionValue)
