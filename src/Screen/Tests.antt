-- ===== src/Screen/Tests.antt =====
-- The screen at concrete sizes, measurements and keys.
use fiveman.Common.{
  ◌^◌, some, ℕ, ◌+◌, true, false, List, ◌<◌, ◌≤◌, [], ◌∷◌, suc, ◌≡◌, refl, arith, replicate,
}
use fiveman.Common.Int.{ℤ, pos}
use fiveman.Common.Text.{Text, codes, c_string, show_int}
use fiveman.Process.{allocate}
use fiveman.Screen.Frame.{Shown, Round, Picture, first_picture, draw_round, draw_rounds}
use fiveman.Screen.Buffer.{shown_pair, readwrite_byte_measurement_string_lem}
use fiveman.Screen.Bytes.{
  ScaleOf, byte_scale, byte_scale_lem, byte_text, readwrite_byte_measurement_string,
}
use fiveman.Screen.Keys.{Ui, leave, InRange, initial_ui, key_down, press, press-InRange}
use fiveman.Machine.{Machine, Ensures, returned}
use fiveman.Process.Converge.{is_alive}
use fiveman.Screen.Ending.{leave-late}
use fiveman.Screen.Quit.{LeftBy, leave-LeftBy}
use fiveman.Table.{table_num_alive}
use fiveman.Simulation.{Sim, sim, sim_data, boot, web_instruction, job_instruction}
use fiveman.Types.{ScreenEntry, ProcessState, running, zero_sample}

byte_scale_lem_example : ScaleOf 5000000 (byte_scale (pos 5000000))
byte_scale_lem_example = byte_scale_lem (pos 5000000)

abbrev one_and_a_half : ℤ → ℕ → Text
one_and_a_half z n = codes "1.5"

readwrite_byte_measurement_string_lem_example :
    c_string
      (readwrite_byte_measurement_string one_and_a_half
        (pos 1536)
        (pos 15)
        (replicate (suc 6) 0)
        6).0
    ≡ shown_pair one_and_a_half
        (pos 1536)
        (pos 15)
        6
        (byte_text one_and_a_half (pos 1536))
        (byte_text one_and_a_half (pos 15))
unfolding byte_text byte_scale
readwrite_byte_measurement_string_lem_example =
    readwrite_byte_measurement_string_lem one_and_a_half (pos 1536) (pos 15) 6 (omega arith)
      (refl, (refl, (refl, (refl, (refl, tt))))) (refl, (refl, (refl, (refl, tt))))

abbrev entry : ScreenEntry
entry = record {
  activity = running;
  pid = pos 1100;
  age = pos 90;
  sample = zero_sample;
  stdout_active = true;
  stderr_active = false;
}

abbrev shown_web : Shown
shown_web = record {
  instruction = web_instruction;
  activity = running;
  age = pos 90;
  entry = entry;
}

-- The terminal is made wider, and then the second row is highlighted.
abbrev wide : Round
wide = record {
  max_row = 24;
  max_col = 200;
  highlighted_row = 0;
  entries = shown_web ∷ shown_web ∷ [];
}

abbrev second : Round
second = record wide { highlighted_row = 1 }

abbrev ints : ℤ → ℕ → Text
ints z n = show_int z

abbrev drawn : Picture
drawn =
    draw_round ints ints (codes "Procfile") (codes "/app")
      (draw_rounds ints ints (codes "Procfile") (codes "/app")
        (first_picture (codes "Procfile") (codes "/app") 24 80) (wide ∷ []))
      second

abbrev two_states : List ProcessState
two_states = allocate web_instruction (pos 5000) ∷ allocate job_instruction (pos 5001) ∷ []

press-InRange_example : InRange 2 (press key_down 2 initial_ui two_states)
unfolding initial_ui
press-InRange_example = press-InRange key_down 2 initial_ui two_states (omega arith) refl

-- A table with process 1100 running, and fiveman about to leave for 200 seconds.
abbrev web_alone : List ProcessState
web_alone =
    record (allocate web_instruction (pos 5000)) { pid = pos 1100; sample_ctxt = some sim_data }
    ∷ []

abbrev leaving : Ui
leaving = record initial_ui { is_terminating = true; term_issued_at = 1000 }

abbrev web_lives : Machine Sim
web_lives = record boot { world = record { clock = 1200; live = 1100 ∷ [] } }

leave-LeftBy_example :
    Ensures
      (leave sim leaving web_alone web_lives)
      (λ r m'. LeftBy leaving web_alone r web_lives.calls m'.calls)
unfolding initial_ui
leave-LeftBy_example = leave-LeftBy sim leaving web_alone web_lives refl

at_1200 :
    (n : ℕ) (m₁ : Machine Sim)
    → table_num_alive sim web_alone web_lives ≡ returned n m₁
    → (1000 + 100 ≤ (sim.time m₁.world).1) × ((sim.time m₁.world).1 < 1000 + 2 ^ 31)
unfolding table_num_alive is_alive allocate
at_1200 n m₁ e = ground arith

leave-late_example :
    (m' : Machine Sim) × (leave sim leaving web_alone web_lives
      ≡ returned (record leaving { exit_fiveman_immediately = true }, web_alone, true) m')
unfolding initial_ui
leave-late_example = leave-late sim leaving web_alone web_lives refl at_1200
