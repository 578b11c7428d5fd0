-- ===== src/AuthCache/Program.antt =====
-- pkg/cache/common.go: what `synchronize` calls, as programs. A program is a run that is taken access
-- by access: what it reads of the informers, what it looks up in the stores, what it writes to them,
-- and when it takes the lock of the watchers to notify them. Between two accesses other goroutines
-- may go on.
pub mod Synchronize
pub mod Alone
pub mod Rights
pub mod Restores
use clusterset_server.Base.{String, [], err, failure}
use clusterset_server.Platform.{Platform}
use clusterset_server.AuthCache.Records.{ReviewRecord, review_record_key}
use clusterset_server.AuthCache.State.{Surroundings, AuthCache}
use clusterset_server.AuthCache.Subjects.{delete_resource, add_subject}

-- What a run itself reads: all but what the watchers are shown.
abbrev pub readings : Surroundings → Surroundings
readings s = record s {
  watchable = record {
    list_objects = λ user. [];
    get = λ name. err (failure "");
    convert_resource = λ name. record { name = ""; resource_version = ""; labels = [] };
  };
}

module _ ⦃P : Platform⦄ where
  open P use {StringSet, add, delete}

  -- What a run looks up: all but the watchers.
  abbrev pub stores : AuthCache → AuthCache
  stores ac = record ac { watchers = [] }

  -- A write of a run: one round of the loops over subjects, a review record, or the end of the run.
  pub data Write : Type 0 where
    delete_user delete_group add_user add_group : (subject name : String) → Write
    put_record drop_record : ReviewRecord → Write
    end_run : StringSet → String → Write

  unfoldable pub written : Write → AuthCache → AuthCache
  written (delete_user subject name) ac = record ac {
    user_subject_records = delete_resource ac.user_subject_records subject name;
  }
  written (delete_group subject name) ac = record ac {
    group_subject_records = delete_resource ac.group_subject_records subject name;
  }
  written (add_user subject name) ac = record ac {
    user_subject_records = add_subject ac.user_subject_records subject name;
  }
  written (add_group subject name) ac = record ac {
    group_subject_records = add_subject ac.group_subject_records subject name;
  }
  written (put_record r) ac = record ac {
    review_records = add review_record_key ac.review_records r;
  }
  written (drop_record r) ac = record ac {
    review_records = delete review_record_key ac.review_records r;
  }
  written (end_run names state) ac = record ac { all_known_names = names; last_state = state }

  pub data Program (A : Type 0) : Type 0 where
    returns : A → Program A
    reads : (Surroundings → Program A) → Program A
    looks : (AuthCache → Program A) → Program A
    writes : Write → Program A → Program A
    -- `notifyWatchers`
    notifies : (name : String) (users groups : StringSet) → Program A → Program A

  infixl 5 ◌then◌
  unfoldable pub ◌then◌ : {A B : Type 0} → Program A → (A → Program B) → Program B
  ◌then◌ (returns a) f = f a
  ◌then◌ (reads k) f = reads (λ s. k s then f)
  ◌then◌ (looks k) f = looks (λ ac. k ac then f)
  ◌then◌ (writes w p) f = writes w (p then f)
  ◌then◌ (notifies name users groups p) f = notifies name users groups (p then f)
