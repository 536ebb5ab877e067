-- ===== src/Lib.antt =====
-- A model of the chat and game server MintServer, a Winsock server with one select thread, one
-- accept thread, one gameplay thread and one send thread, and of its console client MintClient. The
-- threads hand nodes to each other over lists whose memory comes from one pool. Paths are under
-- MintServer/src/MTLibrary where no other one is named.
--
-- The files and what they model:
--
--   Base             shared names: tests, lists, machine words, chains of pointers, and the outcome
--                    of a run (`ok`, `fault` for undefined behaviour, `out_of_fuel`)
--   Tool             Tool.cpp: `s_memcpy` is sMemcpy, `s_delay_time` is sDelayTime
--   Memory           MemoryPool.cpp: the static members of PrivateMMP are the record MemoryPool
--   TmpSinglyList    List/TMPSinglyList.hpp: the class with the memory of its nodes is one record;
--                    `live` says at which addresses a node is
--   TmpDoublyList    List/TMPDoublyList.hpp, in the same way; Insert has the insertion next to a node
--                    and by number
--   Receive          TCPServer.cpp, ReceiveEx
--   Send             TCPServer.cpp, SendEx
--   DoublyList       List/DoublyList.hpp, how nodes come from `new` and go to `delete`
--   SinglyList       List/SinglyList.hpp: its nodes, too, and Unlink; Link, LinkToHead and
--                    SearchNodeWithNumber are those of TmpSinglyList
--   LockList         LockList.hpp: what its functions do between Lock and Unlock
--   Task             Task.cpp: vAddTask, vGetTaskCount and vRunTask on the sequence of tasks
--   WaitEvent        WaitEvent.cpp, and the loops of the worker threads round their queues: Wait and
--                    Awake as steps that the threads take in any order
--   Packet           Packet.h: the nodes of the packet queues, and the head of a packet in bytes
--   Server           TCPServer.h and TCPServer.cpp: the lists, flags and events that the threads
--                    share. Start has Create and CreateWinsock, Select one round of
--                    Select_InMainThread and of Accept_InThread, Gameplay one of Gameplay_InThread,
--                    and Sender one of Send_InThread; Gameplay/Alive is about the heartbeat, and
--                    Gameplay/Faults about undefined behaviour in the handlers of the user. The
--                    functions have the names of the source, with `_` between the words
--   GameServer       GameServer.cpp, beside MTLibrary: the virtual functions of the server, on the list
--                    of players. `UserHandlers` is the interface between the two;
--                    Answers says what the others get to see, Session what a player may send, Alive
--                    whom the heartbeat closes with these answers, and TooLong what ends the server
--   CString          strcmp, strcpy_s and the texts that `%s` reads, on arrays of bytes
--   Client           MintClient/src/main.cpp: the class TCPClient and what is round it. Packets has the
--                    Send_C2S functions and vOnRunTask, Recv has RecvEx, and Input has NameInput,
--                    ChatInput, Shutdown, Release and Run
--   Chat             a message from the game over the send thread to the client of another player
--   Tutorial         Example/Toturial-3, from the repository's root: its programs about threads. Threads
--                    has what they share with lists of actions for their functions: a read, a write,
--                    `++`, `lock`, `unlock`, InterlockedIncrement. Swap is the program of the folders 3
--                    and 4 with its five ways to swap two values, Counters those of 1 and 2, Produce
--                    that of 5. Held, Moves, Order and Gate are about locks and who waits for whom,
--                    Sections about what a locked section makes of the variables, Ended about
--                    EndCounter, and Fair and Pool about threads that run in rounds
--   Components       IComponent.cpp and EDComponentFramework.cpp: a tree is the nodes of its lists, with
--                    `node` for a node and `end` for NULL. Search has the search by ID, Visits the
--                    events that are passed down
--   Examples         tests and instances of the theorems
--
-- How they interact: the select thread (Select) puts notices and packets into the queue of the
-- gameplay thread (Gameplay), which calls the game through `UserHandlers` and puts its answers into
-- the queue of the send thread (Sender). The client (Client) sends what the select thread receives,
-- and receives what the send thread sends; it uses Receive, Send and Task, since its loops are those
-- of the server. Each list that the threads share is a field of `Server`. In these modules a list is
-- the sequence of what its nodes hold, and it is assumed that one operation under a lock is one
-- step, as the functions of LockList.hpp make it; the pointers behind the sequences are in
-- TmpSinglyList and TmpDoublyList.
--
-- Conventions. An address is a number and NULL is 0. A `UINT` is a number below 2^32 and a `WORD` one
-- below 2^16; where the code adds, the remainder is written out. A counter that the code lowers is
-- lowered only where the code has tested that it is not 0. Undefined behaviour, such as a read through
-- NULL or a write behind an array, is the outcome `fault`. What Winsock and `new` answer is an
-- argument of the function that calls them. Lines that only log are left out.
--
-- Fuel. The loops of `unlink` and of `search_node_with_number` go along the linked nodes, and are given
-- one round more than the list counts; on a list whose pointers and counters fit together that is
-- enough, since the loop passes each linked node once. The loops of ReceiveEx and SendEx recur on the
-- answers of Winsock.
--
-- The loops over the lists of the server recur on the sequences. The loop of LinkInsertOrderWithNumber
-- is given one round more than there are linked nodes, as many as it can pass. The loops of the client
-- recur on what fgets, the keyboard and Winsock answer, and run out of fuel where nothing more is given.
--
-- The schedules of Tutorial are lists of the threads that go on, one action each. Rounds in which
-- each thread is named stand for a system that forgets no thread; how many are enough is what the
-- theorems that speak of rounds say. `Sleep` is left out, since any thread may wait between two
-- actions anyway, and so is what is printed. `RunFlag` and the other variables are read and written
-- at once there, as `volatile` variables are.
--
-- Not modelled: the lock of LockList.hpp, the second loop of ShutdownAndCloseSocket, which frees
-- nodes that stay linked, the log files, the set-up of the threads and the end of Winsock (calls of
-- the system), the links of DoublyList, which are set as in TMPDoublyList, the templates TSinglyList
-- and TDoublyList, which nothing uses, the Unity client, and the tutorial servers under
-- Example/Toturial-1 and 2, which are earlier states of the server.
mod Base
pub mod CString
pub mod Tool
pub mod Memory
pub mod TmpSinglyList
pub mod TmpDoublyList
pub mod Receive
pub mod Send
pub mod Task
pub mod Tutorial
pub mod WaitEvent
pub mod Packet
pub mod Server
pub mod GameServer
pub mod Client
pub mod Components
pub mod LockList
pub mod DoublyList
pub mod SinglyList
pub mod Chat
mod Examples
