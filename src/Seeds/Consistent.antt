-- ===== src/Seeds/Consistent.antt =====
-- Answers of the built-in seeds: status, exit code and error agree.
use edgectl.Prelude.{Text, text_eq, Option, none, some, arith}
use edgectl.Session.Command.{Args}
use edgectl.Seeds.Replies.{IsConsistent, ok_result, error_result}
use edgectl.Seeds.Kv
use edgectl.Seeds.Flow
use edgectl.Seeds.Mongod
use edgectl.Seeds.Mongod.{Runner, Output}

ok_result-IsConsistent : (t : Text) → IsConsistent (ok_result t, none)
unfolding ok_result
ok_result-IsConsistent t = ground arith

error_result-IsConsistent : (t m : Text) → IsConsistent (error_result t, some m)
unfolding error_result
error_result-IsConsistent t m = ground arith

pub kv-IsConsistent :
    (quote : Text → Text) (action : Text) (args : Args) (s : Kv.Store)
    → IsConsistent (Kv.execute quote action args s).1
unfolding Kv.execute Kv.put Kv.get Kv.delete Kv.list ok_result error_result
kv-IsConsistent quote action args s = ground arith

pub flow-IsConsistent : (action : Text) (args : Args) → IsConsistent (Flow.execute action args)
unfolding Flow.execute Flow.step Flow.deterministic_step Flow.success Flow.failure
flow-IsConsistent action args = ground arith

answer-IsConsistent : (out : Output) (f : Option Text) → IsConsistent (Mongod.answer out f)
unfolding Mongod.answer
answer-IsConsistent out none = ground arith
answer-IsConsistent out (some m) = ground arith

pub mongod-IsConsistent :
    {S : Type 0} (run : Runner S) (unit action : Text) (args : Args) (s : S)
    → IsConsistent (Mongod.execute run unit action args s).1
unfolding Mongod.execute Mongod.systemctl Mongod.exec Mongod.unknown_action
mongod-IsConsistent run unit action args s = grind (arith, answer-IsConsistent)
