-- ===== src/Cluster/Hoare.antt =====
-- Pre- and postconditions of programs over the trace: one rule for each way to build a program
-- (Cluster/Hoare/Rules), and how what they say is combined (Cluster/Hoare/Combined).
pub mod Rules
pub mod Combined
pub use spot_instance_training_o.Cluster.Hoare.Rules.{
  Outcome, Post, Yields, Triple, Ensures, Delivers, Preserves, Keeps, Ensures-stuck, Ensures-pure,
  Ensures-ask, Ensures-act, Ensures-act_of, Ensures-ask_of, Triple-of, Ensures-absurd,
  Ensures-branch, Triple-before, Ensures-bind, Ensures-known, Keeps-then, Keeps-pure, Keeps-ask,
  Keeps-act,
}
pub use spot_instance_training_o.Cluster.Hoare.Combined.{
  Triple-weaken, Triple-lift, Triple-both, none-of_Post, Triple-either, Keeps-run, Returns,
  Keeps-total, Returns-of, Triple-then, Triple-answers, Triple-ended,
}

pub ruleset keeps_rules = (Keeps-then, Keeps-ask, Keeps-pure)
