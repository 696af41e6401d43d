-- ===== src/Commands.antt =====
-- core/command_buffer.h and core/command_buffer.cpp: the queue of structural changes and its execution.
use vortaris_ecs.Prelude.{
  ℕ, Option, none, some, List, [], ◌∷◌, ◌++◌, ◌==◌, nat_eq, if◌then◌else◌, length,
}
use vortaris_ecs.Entity.{Entity, ComponentTypeId}
use vortaris_ecs.Schema.Registry.{ComponentRegistry}
use vortaris_ecs.World.{World, Command, in_iteration, is_alive, begin_suppress, end_suppress}
use vortaris_ecs.World.Components
use vortaris_ecs.World.Entities.{create_entity_preassigned, destroy_entity_deferred}
use vortaris_ecs.World.Deferred.{begin_deferred_moves, end_deferred_moves}
use vortaris_ecs.World.Lifecycle.{run_custom_command}

-- A null pointer and an empty range both leave `cmd.data` empty.
abbrev pub data_of : Option (List ℕ) → List ℕ
data_of none = []
data_of (some d) = d

abbrev pub push : Command → World → World
push c w = record w { command_buffer = w.command_buffer ++ c ∷ [] }

unfoldable pub add_component : Entity → ComponentTypeId → Option (List ℕ) → World → World
add_component p_e p_t p_data = push (Command.add_component p_e p_t (data_of p_data))

unfoldable pub remove_component : Entity → ComponentTypeId → World → World
remove_component p_e p_t = push (Command.remove_component p_e p_t)

unfoldable pub add_entity : Entity → World → World
add_entity p_e = push (Command.add_entity p_e)

unfoldable pub remove_entity : Entity → World → World
remove_entity p_e = push (Command.remove_entity p_e)

unfoldable pub add_custom : ℕ → Option (List ℕ) → World → World
add_custom p_id p_data = push (Command.custom_command p_id (data_of p_data))

-- `cmd.data.empty() ? nullptr : cmd.data.data()`.
abbrev pub pointer_to : List ℕ → Option (List ℕ)
pointer_to [] = none
pointer_to (b ∷ bs) = some (b ∷ bs)

-- The body of the switch.
unfoldable pub run_command : ComponentRegistry → Command → World → World
run_command reg (Command.add_component e t d) w = Components.add_raw reg e t (pointer_to d) w
run_command reg (Command.remove_component e t) w = Components.remove_component reg e t w
run_command reg (Command.add_entity e) w =
    if is_alive w e then w else (create_entity_preassigned e w).0
run_command reg (Command.remove_entity e) w = destroy_entity_deferred e w
run_command reg (Command.custom_command id d) w = run_custom_command id d w

unfoldable pub run_commands : ComponentRegistry → List Command → World → World
unfolding run_command
run_commands reg [] w = w
run_commands reg (c ∷ cs) w = run_commands reg cs (run_command reg c w)

-- The queue is swapped out first.
unfoldable pub execute : ComponentRegistry → World → World
unfolding run_commands
execute reg w =
    if length w.command_buffer == 0
    then w
    else (if in_iteration w
        then w
        else (let w₁ = begin_deferred_moves (begin_suppress (record w { command_buffer = [] })) in
            end_suppress (end_deferred_moves reg (run_commands reg w.command_buffer w₁))))
