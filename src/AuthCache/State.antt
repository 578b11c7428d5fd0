-- ===== src/AuthCache/State.antt =====
-- The state of an `AuthCache`, what a run of it reads, and how a step of it ends.
use clusterset_server.Base.{String, List, Result, []}
use clusterset_server.Platform.{Platform}
use clusterset_server.Rbac.{ClusterRole, ClusterRoleBinding}
use clusterset_server.Rbac.Reviewer.{Review}
use clusterset_server.Watcher.{WatchableCache, CacheWatcher}
use clusterset_server.AuthCache.Records.{
  SubjectRecord, ReviewRequest, ReviewRecord, subject_record_key, review_record_key,
}

-- What a run reads: the configuration of the cache, and what its informers hold at that moment.
pub record Surroundings : Type 0 where
  pub group : String
  pub resource : String
  pub sync_requests : Result (List ReviewRequest)
  pub reviewer : String → String → String → Result Review
  pub list_bindings : Result (List ClusterRoleBinding)
  pub get_role : String → Result ClusterRole
  pub last_sync_version : String
  pub role_version : String
  pub role_binding_version : String
  pub watchable : WatchableCache

module _ ⦃P : Platform⦄ where
  open P use {StringSet, Store, empty, new_store}

  pub record AuthCache : Type 0 where
    pub all_known_names : StringSet
    pub last_state : String
    pub review_records : Store ReviewRecord
    pub user_subject_records : Store SubjectRecord
    pub group_subject_records : Store SubjectRecord
    pub watchers : List CacheWatcher

  abbrev pub new_auth_cache : AuthCache
  new_auth_cache = record {
    all_known_names = empty;
    last_state = "";
    review_records = new_store review_record_key;
    user_subject_records = new_store subject_record_key;
    group_subject_records = new_store subject_record_key;
    watchers = [];
  }

  -- A step returns, or it waits for the lock of the watchers that it holds itself and never goes on.
  pub data Outcome (A : Type 0) : Type 0 where
    done : A → AuthCache → Outcome A
    stuck : AuthCache → Outcome A

  abbrev pub after : {A : Type 0} → Outcome A → AuthCache
  after (done a ac) = ac
  after (stuck ac) = ac

  -- A step of the cache that answers with a value.
  abbrev pub M : Type 0 → Type 0
  M A = AuthCache → Outcome A

  abbrev pub pure : {A : Type 0} → A → M A
  pure a ac = done a ac

  infixl 5 ◌>>=◌ ◌>>◌
  abbrev pub ◌>>=◌ : {A B : Type 0} → M A → (A → M B) → M B
  ◌>>=◌ m f ac = elim (m ac) [ done a ac' ↦ f a ac' | stuck ac' ↦ stuck ac' ]

  abbrev pub ◌>>◌ : {A B : Type 0} → M A → M B → M B
  m >> k = m >>= λ _. k
