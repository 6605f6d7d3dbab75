-- ===== src/Reflect/Tests.antt =====
-- The reflection with a model that always answers the same, and a memory that keeps every lesson.
use mathlib.Core.List.{flatten}
use cofiswarm_dispatch.Prelude.{
  drop, ℕ, ◌≤◌, Text, codes, text_eq, true, false, none, some, List, [], ◌∷◌, ◌++◌, keep, map,
  length, ◌≡◌, refl, arith,
}
use cofiswarm_dispatch.Prelude.Decimal.{pos, itoa}
use cofiswarm_dispatch.Prelude.Space.{trim_space, space_width, space_width_back}
use cofiswarm_dispatch.Disk.{File, missing, bytes, wrote, failed}
use cofiswarm_dispatch.Json.{Fields, end, field, text}
use cofiswarm_dispatch.History.{Codec, Store, since, append, save}
use cofiswarm_dispatch.History.Episode.{Episode, as_episode, episodes}
use cofiswarm_dispatch.Agent.{Agent, not_responding}
use cofiswarm_dispatch.Reflect.{
  Lesson, Services, parse_lessons, index_byte, last_index_byte, reflect,
}
use cofiswarm_dispatch.Reflect.Stores.{ask, usable, put_all, chosen, reflect_ok}
use cofiswarm_dispatch.Reflect.Pass.{
  Passed, pass, tick, load_cursor, none_done, is_new, cap_episodes,
}
use cofiswarm_dispatch.Reflect.Pass.Window.{pass-next, pass_again, tick-cursor}
use cofiswarm_dispatch.Reflect.Pass.Torn.{IsLeft, short, tick_torn}
use cofiswarm_dispatch.History.Watermark.{append_all}
use cofiswarm_dispatch.Reflect.Pass.Scheduler
use cofiswarm_dispatch.Reflect.Pass.Scheduler.{
  SchedulerOpts, Begun, Reach, here, next, began, appended, ended, begin_tick, after_begin,
  after_end, end_tick,
}
use cofiswarm_dispatch.Reflect.Pass.Scheduler.Reads.{new_in, newest}
use cofiswarm_dispatch.Reflect.Pass.Scheduler.Once.{run_once}

abbrev fact : Lesson
fact = record { kind = codes "fact"; text = codes " the log is append-only "; id = [] }

abbrev rumour : Lesson
rumour = record { kind = codes "rumour"; text = codes "it is not"; id = [] }

-- The world is the memory; two lessons are read from any array.
abbrev answering : Text → Services
answering raw = record {
  World = List Lesson;
  complete = λ system user w. (raw, w);
  put = λ l w. (true, w ++ l ∷ []);
  unmarshal = λ b. some (fact ∷ rumour ∷ []);
}

abbrev helpful : Services
helpful = answering (codes "Here: [two lessons].")

abbrev silent : Services
silent = answering (codes "No lessons.")

abbrev no_codec : Codec
no_codec = record { encode = λ rows. some []; decode = λ b. some [] }

abbrev pub row : Fields
row = field (codes "prompt") (text (codes "Is the log mutable?")) end

abbrev pub log : Store
log = record { rows = row ∷ []; file = missing }

abbrev pub run : Episode
run = as_episode row

two_lessons : usable helpful (ask helpful (run ∷ []) (pos 0) []).0 ≡ some (fact ∷ rumour ∷ [])
unfolding parse_lessons index_byte last_index_byte trim_space space_width space_width_back
two_lessons = refl

no_lessons : usable silent (ask silent (run ∷ []) (pos 0) []).0 ≡ none
unfolding parse_lessons index_byte last_index_byte trim_space space_width space_width_back
no_lessons = refl

reflect_ok_example :
    (stored : ℕ) × (reflect helpful (run ∷ []) (pos 0) [] ≡ (
      record { episodes = 1; proposed = 2; stored = stored },
      none,
      (put_all helpful (chosen helpful (fact ∷ rumour ∷ [])) []).1,
    ))
    × (stored ≡ (put_all helpful (chosen helpful (fact ∷ rumour ∷ [])) []).0)
    × (stored ≤ 2)
reflect_ok_example = reflect_ok helpful run [] (pos 0) [] (fact ∷ rumour ∷ []) two_lessons

pass_again_example :
    let p = pass helpful no_codec wrote log 0 (pos 0) (pos 0) [] in
    pass helpful no_codec wrote p.store p.next (pos 0) (pos 0) p.world ≡ record {
      result = none_done;
      next = length p.store.rows;
      error = none;
      store = p.store;
      world = p.world;
    }
pass_again_example = pass_again helpful no_codec wrote wrote log 0 (pos 0) (pos 0) []

tick-cursor_example :
    load_cursor (tick silent no_codec wrote wrote log missing (pos 0) (pos 0) []).1 ≡ 1
tick-cursor_example = tick-cursor silent no_codec wrote log missing (pos 0) (pos 0) [] (omega arith)

-- Twelve rows, of whose number the write of the cursor leaves the first digit.
abbrev dozen : Store
dozen = record {
  rows = row ∷ row ∷ row ∷ row ∷ row ∷ row ∷ row ∷ row ∷ row ∷ row ∷ row ∷ row ∷ [];
  file = missing;
}

abbrev torn : Passed (List Lesson) × File
torn = tick silent no_codec wrote (failed (bytes (codes "1"))) dozen missing (pos 0) (pos 0) []

one_digit :
    IsLeft missing
      (itoa (pass silent no_codec wrote dozen (load_cursor missing) (pos 0) (pos 0) []).next)
      (bytes (codes "1"))
unfolding itoa
one_digit =
    rw (pass-next silent no_codec wrote dozen (load_cursor missing) (pos 0) (pos 0) []) (short 1)

tick_torn_example :
    (load_cursor torn.1 ≤ 12)
    × ((since (pos (load_cursor torn.1)) (append_all no_codec ((wrote, row) ∷ []) torn.0.store)).0
        ≡ drop (load_cursor torn.1) torn.0.store.rows ++ row ∷ [])
tick_torn_example =
    tick_torn silent no_codec wrote (bytes (codes "1")) dozen missing (pos 0) (pos 0) []
      ((wrote, row) ∷ []) (omega arith) (unfold load_cursor in omega arith) one_digit

abbrev pub reflector : Agent
reflector = record {
  name = codes "reflector";
  engine = codes "llama";
  backend = [];
  model = [];
  tags = [];
  inference_backend = [];
  port = pos 8099;
  description = [];
  system_prompt = [];
  max_input_tokens = pos 0;
  max_output_tokens = pos 0;
  max_tokens = pos 512;
  context_window = pos 4096;
  read_timeout_secs = pos 0;
  use_rag = false;
  rag_top_k = pos 0;
  rag_kinds = [];
}

abbrev down : Services
down = answering (not_responding reflector)

pub one_new : cap_episodes (pos 0) (keep is_new (episodes (since (pos 0) log).0)) ≡ run ∷ []
unfolding cap_episodes is_new episodes since text_eq as_episode
one_new = refl

abbrev capped : SchedulerOpts
capped = record { interval = pos 0; max_episodes = pos 1; max_chars = pos 0 }

abbrev System : Type 0
System = Scheduler.System helpful no_codec capped

abbrev at_start : System
at_start = record { store = log; file = missing; begun = none; world = []; windows = [] }

abbrev first_window : Begun
first_window = begin_tick capped log missing

abbrev during : System
during = after_begin helpful no_codec capped at_start

abbrev crowded : System
crowded = record during { store = (append no_codec wrote row log).0 }

abbrev ended_once : System
ended_once = after_end helpful no_codec capped wrote wrote first_window crowded

-- A row is appended while the first tick is under way.
one_tick : Reach helpful no_codec capped at_start ended_once
unfolding after_begin
one_tick =
    next (next (next here (began at_start refl)) (appended during wrote row))
      (ended crowded wrote first_window refl)

log_size : length ended_once.store.rows ≡ 3
unfolding after_end after_begin append save end_tick begin_tick cap_episodes episodes since
    load_cursor is_new text_eq reflect trim_space space_width space_width_back parse_lessons
    index_byte last_index_byte
log_size = refl

run_once_example :
    (parts : List (List Episode)) × (flatten parts
      ≡ new_in (drop (load_cursor missing) ended_once.store.rows))
    × ((after_begin helpful no_codec capped ended_once).windows ≡ map (newest (pos 1)) parts)
run_once_example =
    run_once helpful no_codec capped {s = at_start} {t = ended_once} refl refl
      (unfold load_cursor in omega arith) one_tick (unfold after_end in refl)
      (omega (arith, log_size))
