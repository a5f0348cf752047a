-- ===== src/Runner/Examples.antt =====
-- A runner of two slots, with room for three admissions more.
use webhook_ui.Common.{
  false, ◌≡◌, ◌<◌, [], ◌∷◌, refl, none, some, length, lookup, insert, nat_eq, string_eq, arith, pos,
}
use webhook_ui.Runner.{Runner, new_runner, admit, admitted, hook_busy, set_execution, release, took}
use webhook_ui.Runner.Held.{
  Held, IsExclusive, admits, starts, Run, here, next, new_runner-Run-IsExclusive,
}
use webhook_ui.Runner.Admissions.{admit-release}

first : Runner
unfolding new_runner
first = new_runner (pos 2) (pos 3)

one_running : Runner
unfolding first admit
one_running = record ((admit "deploy" first).1) { slots = 1 }

abbrev one_out : Held
one_out = (0, "deploy") ∷ []

two_steps : Run (new_runner (pos 2) (pos 3)) [] one_running one_out
unfolding one_running first new_runner admit lookup insert
two_steps = next (next here (admits "deploy")) (starts {canceled = false} (took (omega arith)))

new_runner-Run-IsExclusive_example : IsExclusive one_running one_out
new_runner-Run-IsExclusive_example = new_runner-Run-IsExclusive (pos 2) (pos 3) two_steps

not_held : lookup "backup" one_running.in_flight ≡ none
unfolding one_running first admit lookup insert
not_held = refl

has_room : length one_running.in_flight < one_running.capacity
unfolding one_running first admit lookup insert
has_room = omega arith

admit-release_example :
    let held = set_execution one_running.next_slot 7 (admit "backup" one_running).1 in
    ((admit "backup" one_running).0 ≡ admitted one_running.next_slot)
    × (admit "backup" held ≡ (hook_busy 7, held))
    × ((r' : Runner) × (release one_running.next_slot held ≡ some r')
        × (r'.in_flight ≡ one_running.in_flight)
        × (r'.wg ≡ one_running.wg)
        × ((admit "backup" r').0 ≡ admitted r'.next_slot))
admit-release_example = admit-release "backup" 7 one_running not_held has_room
