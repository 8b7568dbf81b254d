-- ===== src/Tests/SessionExamples.antt =====
-- The refinement of sessions, applied to a login, a refresh and a logout of the sample platform.
use idp_be.Prelude.{List, [], ◌∷◌, refl, none}
use idp_be.Platform.{World, later}
use idp_be.Auth.Service.{login, login_result, logout, refresh}
use idp_be.Auth.Refines.{Sessions, Implements, holder}
use idp_be.Auth.Machine.{
  Call, logs_in, refreshes, logs_out, waits, Follows, Answered, unused, then_login, then_later,
  then_refresh, then_logout, sessions_refine,
}
use idp_be.Tests.Store.{Entries, sample_redis_laws}
use idp_be.Tests.Sample.{SampleDb, sample, start}
use idp_be.Tests.Runs.{runs}
use idp_be.Tests.ApiExamples.{sample_answers}

abbrev logged_in : World SampleDb Entries
logged_in = (login sample "a@gm.gist.ac.kr" "secret" start).1

abbrev refreshed : World SampleDb Entries
refreshed = (refresh sample "t" (later 1000 logged_in)).1

abbrev logged_out : World SampleDb Entries
logged_out = (logout sample "tt" refreshed).1

abbrev calls : List Call
calls =
    logs_out "tt"
    ∷ refreshes "t" (login_result sample "alice" "tt" 1000)
    ∷ waits 1000
    ∷ logs_in "a@gm.gist.ac.kr" "secret" (login_result sample "alice" "t" 0)
    ∷ []

answered : Answered sample start calls logged_out
unfolding runs
answered =
    then_logout "tt"
      (then_refresh "t" (login_result sample "alice" "tt" 1000)
        (then_later 1000
          (then_login "a@gm.gist.ac.kr" "secret" (login_result sample "alice" "t" 0) unused refl))
        refl)
      refl

abbrev nobody : Sessions
nobody token = none

start-Implements : Implements sample start nobody
unfolding holder
start-Implements = record { holds = λ token t late. refl }

sessions_refine_example : Follows sample calls start nobody logged_out
sessions_refine_example =
    sessions_refine sample sample_redis_laws sample_answers start nobody calls logged_out
      start-Implements answered
