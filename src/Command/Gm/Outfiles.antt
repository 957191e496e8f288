-- ===== src/Command/Gm/Outfiles.antt =====
-- Where the commands of imageprocessor/processorcommand/gm.go write, and how many they are.
use mandible.Base.{ℕ, suc, ◌+◌, ◌≤◌, String, ◌≡◌, List, arith, length}
use mandible.Base.Int.{ℤ}
use mandible.Base.Result.{Result, ok, err, panic}
use mandible.Host.{Host, Machine}
use mandible.ThumbType.Formats.{ThumbType}
use mandible.Command.Runner.{run_processor_command}
use mandible.Command.Gm.{run_to, derived, square_thumb, circle_thumb, thumb, custom_thumb, full}

-- The file of a result, or else this one.
abbrev pub file_or : String → Result String → String
file_or _ (ok file) = file
file_or other (err _) = other
file_or other panic = other

-- A call that gave this file, or none, and started at least one command and at most `n`.
pub record Wrote (outfile : String) (n : ℕ) (before : Host) (after : Result String × Host)
    : Type 0 where
  pub to : file_or outfile after.0 ≡ outfile
  pub some_started : suc (length before.ran) ≤ length after.1.ran
  pub few_started : length after.1.ran ≤ length before.ran + n

module _ (m : Machine) where
  run_to-Wrote :
      (args : List String) (outfile : String) (h : Host)
      → Wrote outfile 1 h (run_to m args outfile h)
  unfolding run_to run_processor_command
  run_to-Wrote args outfile h = record {
    to = ground arith;
    some_started = ground arith;
    few_started = ground arith;
  }

  module _ (filename name : String) where
    pub square_thumb-Wrote :
        (size q : ℤ) (format : ThumbType) (h : Host)
        → Wrote (derived filename name) 1 h (square_thumb m filename name size q format h)
    unfolding square_thumb
    square_thumb-Wrote size q format h = run_to-Wrote _ _ h

    pub thumb-Wrote :
        (width height q : ℤ) (format : ThumbType) (h : Host)
        → Wrote (derived filename name) 1 h (thumb m filename name width height q format h)
    unfolding thumb
    thumb-Wrote width height q format h = run_to-Wrote _ _ h

    pub custom_thumb-Wrote :
        (width height : ℤ) (gravity : String) (cw ch q : ℤ) (format : ThumbType) (h : Host)
        → Wrote
            (derived filename name)
            1
            h
            (custom_thumb m filename name width height gravity cw ch q format h)
    unfolding custom_thumb
    custom_thumb-Wrote width height gravity cw ch q format h = run_to-Wrote _ _ h

    pub full-Wrote :
        (q : ℤ) (format : ThumbType) (h : Host)
        → Wrote (derived filename name) 1 h (full m filename name q format h)
    unfolding full
    full-Wrote q format h = run_to-Wrote _ _ h

    -- The square, and then the circle over it.
    pub circle_thumb-Wrote :
        (width q : ℤ) (format : ThumbType) (h : Host)
        → Wrote (derived filename name) 2 h (circle_thumb m filename name width q format h)
    unfolding circle_thumb run_processor_command
    circle_thumb-Wrote width q format h = record {
      to = ground arith;
      some_started = ground arith;
      few_started = ground arith;
    }
