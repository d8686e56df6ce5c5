-- ===== src/Buffer/Builder.antt =====
-- buffer.h and buffer.cc: Buffer::Builder and the constructor of Buffer, with the site that it makes.
-- Times and the thread that adds the collaborators are not modelled.
use ced.Base.{ℕ, Bool, true, false, Option, none, some, []}
use ced.Ids.{Site, make_site}
use ced.Proto.{Bytes}
use ced.Outcome.{Outcome, ok, ◌>>=◌, deref}
use ced.Text.{AnnotatedString, new_string}
use ced.Buffer.{Buffer}

-- `project_` is kept as whether there is one.
pub record Builder : Type 0 where
  pub filename : Option Bytes
  pub initial_string : Option AnnotatedString
  pub site_id : Option ℕ
  pub has_project : Bool
  pub synthetic : Bool

unfoldable pub new_builder : Builder
new_builder = record {
  filename = none;
  initial_string = none;
  site_id = none;
  has_project = false;
  synthetic = false;
}

unfoldable pub set_filename : Bytes → Builder → Builder
set_filename filename b = record b { filename = some filename }

unfoldable pub set_initial_string : AnnotatedString → Builder → Builder
set_initial_string s b = record b { initial_string = some s }

unfoldable pub set_project : Builder → Builder
set_project b = record b { has_project = true }

unfoldable pub set_site_id : ℕ → Builder → Builder
set_site_id id b = record b { site_id = some id }

unfoldable pub set_synthetic : Bool → Builder → Builder
set_synthetic synthetic b = record b { synthetic = synthetic }

-- What the constructor makes, beside what the threads share.
pub record Made : Type 0 where
  pub filename : Bytes
  pub is_server : Bool
  pub synthetic : Bool
  pub site : Site
  pub shared : Buffer

unfoldable pub new_buffer : Option AnnotatedString → Buffer
new_buffer initial_string = record {
  version = 0;
  declared_no_edit = [];
  done = [];
  updating = false;
  state = record {
    content = elim initial_string [ none ↦ new_string | some s ↦ s ];
    fully_loaded = false;
    shutdown = false;
    referenced_file_version = 0;
  };
  collaborators = [];
}

-- Make: without a file name the assert fails. `counter` is the counter of sites, which is returned as
-- the new site leaves it.
unfoldable pub make : ℕ → Builder → Outcome (Made × ℕ)
unfolding new_buffer
make counter b = deref b.filename >>= λ filename.
    deref (make_site b.site_id counter) >>= λ (s : Site × ℕ). ok (
      record {
        filename = filename;
        is_server = b.has_project;
        synthetic = b.synthetic;
        site = s.0;
        shared = new_buffer b.initial_string;
      },
      s.1,
    )
