-- ===== src/Creators/Tests.antt =====
-- A driver that gives one session whatever it is asked for, and writes down what happens to it.
use hydra_ultimate.Base.{String, ◌≡◌, refl, List, [], ◌∷◌, ok, err, value_error, runtime_error}
use hydra_ultimate.Base.Dict.{Dict, lookup}
use hydra_ultimate.Base.Int.{ℤ, pos}
use hydra_ultimate.Base.Text.{strip, lower, is_name}
use hydra_ultimate.Creators.{CreatorSessionRequest, CreatorSessionGroup, Driver, create}
use hydra_ultimate.Creators.Created.{Created, create_lem}

abbrev group_for : CreatorSessionRequest → CreatorSessionGroup (Unit {0})
group_for request = record {
  request = request;
  endpoints = record { uri = "https://room"; token = "t" } ∷ [];
  handle = tt;
}

abbrev single : Driver (List String) (Unit {0})
single = record {
  create_sessions = λ request log. (ok (group_for request), "create" ∷ log);
  commit_sessions = λ group log. (ok tt, "commit" ∷ log);
  finalize_sessions = λ group log. (ok tt, "finalize" ∷ log);
  rollback_sessions = λ group log. (err (value_error "gone"), "rollback" ∷ log);
  close_sessions = λ group log. (ok tt, "close" ∷ log);
}

abbrev providers : Dict (Driver (List String) (Unit {0}))
providers = ("vk-calls", single) ∷ []

abbrev asking_for : ℤ → CreatorSessionRequest
asking_for count = record {
  provider = " VK-Calls ";
  consumer = "qwdtt";
  lifetime = "managed";
  count = count;
  previous_tokens = [];
}

created :
    create providers (asking_for (pos 1)) [] ≡ (ok (group_for (asking_for (pos 1))), "create" ∷ [])
unfolding create strip lower is_name lookup
created = refl

rolled_back : create providers (asking_for (pos 2)) [] ≡ (
  err (runtime_error "creator provider returned an invalid session group"),
  "rollback" ∷ "create" ∷ [],
)
unfolding create strip lower is_name lookup
rolled_back = refl

create_example :
    Created providers (asking_for (pos 2)) [] (create providers (asking_for (pos 2)) [])
create_example = create_lem providers (asking_for (pos 2)) []
