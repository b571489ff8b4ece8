-- ===== src/Actor/Tests.antt =====
-- Two linked actors: the theorems on steps and exits at a concrete system.
use thespian.Prelude.{
  ◌≡◌, refl, Bool, true, false, List, [], ◌∷◌, none, some, arith, ◌==◌, if◌then◌else◌,
}
use thespian.Prelude.Text.{codes}
use thespian.Cbor.Result.{Bytes, ok}
use thespian.Prelude.Tests.{bytes_eq}
use thespian.Cbor.Kind.{kind_eq}
use thespian.Cbor.Buffer.{array_header, push_typed_val, push_string}
use thespian.Cbor.Decode.{
  decode_array_header, decode_range_header, decode_type, decode_pint, decode_string, advance,
  decode_int_length,
}
use thespian.Cbor.Scalar.{match_string}
use thespian.Cbor.Skip.{match_type, skip_value_type, skip_string, kind_of}
use thespian.Cbor.Match.{match_message, match_value, match_scalar, match_more, is_more}
use thespian.Actor.Messages.{
  null_value, concat, array, exit_message, exit_normal_msg, link_msg, is_link_msg, is_exit_msg,
}
use thespian.Actor.State.{
  Called, Code, finish, Outcome, Instance, Installed, System, Task, Reason, with_instance,
}
use thespian.Actor.Send.{spawn, schedule, queue, post, fresh, send_raw, sent, refused, pid}
use thespian.Actor.Run.{unhandled_msg, exec, destroy, exit_reason, step}
use thespian.Cbor.Value.{nil, push_value}
use thespian.Actor.Ends.{steps, releases, exit-gone}
use thespian.Actor.Reach.{initial, Reach, start, later, runs, spawns, Reach-IsCounted, destroy_lem}
use thespian.Actor.DeadLetter.{tagged, send_raw-gone}
use thespian.Actor.Later.{After, IsCounted, population}
use thespian.Actor.ExecLater.{exec_keeps}
use thespian.Actor.Exit.{hear, times}
use thespian.Actor.Handlers.{return_on}
use thespian.Actor.Deliver.{step_exit, step_exit_throws, remains}

abbrev quit : Bytes
quit = exit_message (codes "quit") []

-- What the runtime makes of the two messages.
quit-is_link_msg : is_link_msg quit ≡ false
unfolding bytes_eq is_exit_msg exit_reason exit_normal_msg link_msg exit_message array array_header
    push_typed_val push_string concat is_link_msg match_message match_value match_scalar match_more
    decode_array_header decode_range_header decode_type decode_pint decode_string advance
    match_string match_type skip_value_type skip_string kind_of is_more kind_eq decode_int_length
quit-is_link_msg = refl

quit-is_exit_msg : is_exit_msg quit ≡ ok true
unfolding bytes_eq is_exit_msg exit_reason exit_normal_msg link_msg exit_message array array_header
    push_typed_val push_string concat is_link_msg match_message match_value match_scalar match_more
    decode_array_header decode_range_header decode_type decode_pint decode_string advance
    match_string match_type skip_value_type skip_string kind_of is_more kind_eq decode_int_length
quit-is_exit_msg = refl

quit-ne-normal : bytes_eq quit exit_normal_msg ≡ false
unfolding bytes_eq is_exit_msg exit_reason exit_normal_msg link_msg exit_message array array_header
    push_typed_val push_string concat is_link_msg match_message match_value match_scalar match_more
    decode_array_header decode_range_header decode_type decode_pint decode_string advance
    match_string match_type skip_value_type skip_string kind_of is_more kind_eq decode_int_length
quit-ne-normal = refl

quit-exit_reason : exit_reason quit ≡ ok (Reason.reason (codes "quit"))
unfolding bytes_eq is_exit_msg exit_reason exit_normal_msg link_msg exit_message array array_header
    push_typed_val push_string concat is_link_msg match_message match_value match_scalar match_more
    decode_array_header decode_range_header decode_type decode_pint decode_string advance
    match_string match_type skip_value_type skip_string kind_of is_more kind_eq decode_int_length
quit-exit_reason = refl

normal-is_link_msg : is_link_msg exit_normal_msg ≡ false
unfolding bytes_eq is_exit_msg exit_reason exit_normal_msg link_msg exit_message array array_header
    push_typed_val push_string concat is_link_msg match_message match_value match_scalar match_more
    decode_array_header decode_range_header decode_type decode_pint decode_string advance
    match_string match_type skip_value_type skip_string kind_of is_more kind_eq decode_int_length
normal-is_link_msg = refl

normal-is_exit_msg : is_exit_msg exit_normal_msg ≡ ok true
unfolding bytes_eq is_exit_msg exit_reason exit_normal_msg link_msg exit_message array array_header
    push_typed_val push_string concat is_link_msg match_message match_value match_scalar match_more
    decode_array_header decode_range_header decode_type decode_pint decode_string advance
    match_string match_type skip_value_type skip_string kind_of is_more kind_eq decode_int_length
normal-is_exit_msg = refl

normal-normal : bytes_eq exit_normal_msg exit_normal_msg ≡ true
unfolding bytes_eq is_exit_msg exit_reason exit_normal_msg link_msg exit_message array array_header
    push_typed_val push_string concat is_link_msg match_message match_value match_scalar match_more
    decode_array_header decode_range_header decode_type decode_pint decode_string advance
    match_string match_type skip_value_type skip_string kind_of is_more kind_eq decode_int_length
normal-normal = refl

abbrev idle : Installed
idle = Installed.installed (λ from m. finish Outcome.returned)

-- An exit handler that returns.
abbrev returning : Reason → Called
returning r = Called.ended

-- An actor that is linked twice to the actor 2, with a queue and a pending callback.
abbrev leader : List Task → Bool → Instance
leader tasks stopped = record {
  name = codes "leader";
  receiver = idle;
  exit_handler = some returning;
  trap_exit = false;
  observes_links = false;
  in_shutdown = stopped;
  links = 2 ∷ 2 ∷ [];
  lifetime = true;
  lifelocks = 1;
  mailbox = tasks;
}

abbrev follower : Instance
follower = record {
  name = codes "follower";
  receiver = idle;
  exit_handler = none;
  trap_exit = true;
  observes_links = false;
  in_shutdown = false;
  links = [];
  lifetime = true;
  lifelocks = 0;
  mailbox = [];
}

abbrev task : Bytes → Task
task m = record { from = 3; msg = m }

abbrev two : List Task → Bool → System
two tasks stopped = record {
  instances =
      λ j. if j == 1 then some (leader tasks stopped) else if j == 2 then some follower else none;
  next_id = 3;
  active = 2;
  exits = [];
  last_exits = 0;
}

abbrev stopping : List Task
stopping = task quit ∷ []

step_exit_example :
    ((step 1 (two stopping false)).instances 2 ≡ some (hear (times 2 (2 ∷ 2 ∷ [])) 1 quit follower))
    × ((step 1 (two stopping false)).instances 1 ≡ remains (leader stopping false) [])
unfolding return_on
step_exit_example =
    step_exit 1 (two stopping false) (leader stopping false) (task quit) [] refl refl refl refl
      quit-is_link_msg quit-is_exit_msg 2 follower (Reason.reason (codes "quit")) refl refl
      quit-ne-normal quit-exit_reason refl

-- A leader whose exit handler throws.
abbrev raising : Reason → Called
raising r = Called.threw (some (codes "late"))

abbrev raiser : Instance
raiser = record (leader stopping false) { exit_handler = some raising }

step_exit_throws_example :
    (step 1 (with_instance (two stopping false) 1 raiser)).instances 2
    ≡ some (
        hear
          (times 2 (2 ∷ 2 ∷ []))
          1
          (unhandled_msg (some (codes "late")))
          (hear (times 2 (2 ∷ 2 ∷ [])) 1 quit follower))
step_exit_throws_example =
    step_exit_throws 1 (with_instance (two stopping false) 1 raiser) raiser (task quit) [] refl refl
      refl refl quit-is_link_msg quit-is_exit_msg 2 follower raising (Reason.reason (codes "quit"))
      (some (codes "late")) refl refl quit-ne-normal quit-exit_reason refl refl

-- Spawn a linked actor, and tell the follower.
abbrev work : Code
work =
    Code.spawn_link (finish Outcome.returned) (codes "helper")
      (λ h. Code.send 2 quit (λ r. finish Outcome.returned))

two-IsCounted : IsCounted (two [] false)
unfolding population
two-IsCounted = record {
  fresh = λ id h. ground arith;
  positive = omega arith;
  null = refl;
  counted = refl;
}

exec_keeps_example :
    (q : Instance) × ((exec work 1 (two [] false)).1.instances 2 ≡ some q) × After follower q
exec_keeps_example = exec_keeps work 1 2 (two [] false) follower two-IsCounted refl

exit-gone_example :
    (releases 1 1 (steps 2 1 (two (task quit ∷ task link_msg ∷ []) false))).instances 1 ≡ none
unfolding return_on
exit-gone_example =
    exit-gone 1 (two (task quit ∷ task link_msg ∷ []) false)
      (leader (task quit ∷ task link_msg ∷ []) false) (task quit) (task link_msg ∷ [])
      (Reason.reason (codes "quit")) refl refl refl refl quit-is_link_msg quit-is_exit_msg
      quit-ne-normal quit-exit_reason refl

-- An actor that was spawned from outside, and has run once.
abbrev one_step : System
one_step = step 1 (spawn initial none (finish Outcome.returned) (some returning) (codes "a") none).1

spawned : Reach (spawn initial none (finish Outcome.returned) (some returning) (codes "a") none).1
spawned = later start (spawns (finish Outcome.returned) (some returning) (codes "a"))

Reach-IsCounted_example : IsCounted one_step
Reach-IsCounted_example = Reach-IsCounted (later spawned (runs 1))

abbrev newcomer : Instance
newcomer = post 0 null_value (fresh (finish Outcome.returned) (codes "a") (some returning))

destroy_lem_example :
    (destroy 1
      (spawn initial none (finish Outcome.returned) (some returning) (codes "a") none).1).last_exits
    ≡ (if population 2
            (destroy 1
              (spawn initial none
                (finish Outcome.returned)
                (some returning)
                (codes "a")
                none).1).instances
          == 0
        then 1
        else 0)
unfolding spawn schedule queue
destroy_lem_example =
    destroy_lem (spawn initial none (finish Outcome.returned) (some returning) (codes "a") none).1 1
      newcomer spawned refl

send_raw-gone_example :
    send_raw (two [] false) (some 1) 7 (push_value (tagged (codes "hi") nil)) ≡ (
      (if bytes_eq (codes "hi") (codes "exit")
          then sent
          else refused (
              exit_message (codes "DEADSEND") (
                push_value (tagged (codes "hi") nil)
                ∷ pid (two [] false) 7
                ∷ pid (two [] false) 1
                ∷ []))),
      two [] false,
    )
send_raw-gone_example =
    send_raw-gone (two [] false) 1 7 (leader [] false) (codes "hi") nil refl refl refl (omega arith)
