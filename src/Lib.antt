-- ===== src/Lib.antt =====
-- The Network Audio System: the parts of the audio server (server/dia) and of the client library
-- (lib/audio) that compute on their own state, with the theorems that make them correct.
--
-- The program. Clients connect to the server and create resources: buckets of sound, and flows, the
-- networks of elements that read inputs, mix and convert samples, and write outputs. A resource is
-- found by a 29-bit id, whose upper 7 bits are the client, in the resource database
-- (server/dia/resource.c). While flows run, server/dia/auprocess.c moves each element's samples
-- through a mini-buffer, where they are first converted to the machine's 16-bit format and at the
-- end to the output's format.
--
-- Where the code is.
--   Prelude     names, tests on numbers, arrays, bits, that the other modules share.
--   Resource    server/dia/resource.c. Types and constants stand in Resource; Create has
--               CreateNewResourceType, CreateNewResourceClass, InitClientResources, AddResource and
--               RebuildTable; Remove has FreeResource, FreeResourceByType, FreeClientResources and
--               FreeAllResources; Find has the lookups, LegalNewID and ChangeResourceValue; Fake
--               has FakeClientID and AvailableID; Resource itself has Hash. The other modules of
--               this folder are proofs: Chain, Views, Inv and Rebuild carry the invariant of a
--               table, Refine the abstract view (an id's list of nodes, `Refine.Add.held`).
--   Sample      the converters of server/dia/auprocess.c (Sample.Convert, over the in-place loops
--               of Sample) and the mu-law codes, also of lib/audio/convutil.c (Sample.Ulaw), whose
--               routines are in Sample.Client. Loops, Rework, RoundTrip, Encode and ClientTrip are
--               proofs.
--   Stream      rate conversion and the client ports of server/dia/auprocess.c: Rate has rc_x and
--               rcNull, Port has readClient and writeClient, Bucket has readBucket and writeBucket.
--               Mask, Laws, Rates, Picks, Queue, Read, Frames, Write and Buckets are proofs;
--               `Laws.IsRate` is what a port relies on in a rate converter.
--   Mix         accumulateOutput, its forms for one input, and the range check of writeOutput, of
--               server/dia/auprocess.c, with proofs in Mix.Gain; and Mix.Fixed, AuFixedPointMultiply of
--               server/dia/auutil.c.
--   Play        AuStartFlow and AuProcessData of server/dia/auprocess.c, and setFlowState of
--               server/dia/auutil.c; Play.State has the proofs.
--   Element     AuChangeElementState and checkForTriggeredActions of server/dia/auutil.c: Element has
--               what starting an element sets (start_element), Change the two loops (mark and
--               fire_from) and the actions. Rule is the induction that the other modules of the
--               folder share; Allowed, Flags, Pending, Measure, Ends and Loop are proofs.
--   Attributes  AuSetComponentAttributes (Attributes) and AuMatchAttributes (Attributes.Match) of
--               server/dia/auutil.c; Bits has the loops over a mask, Agreement and SetMatch proofs.
--   Storage     createPort of server/dia/auutil.c and ProcAuCreateBucket of
--               server/dia/audispatch.c, with the sizes that they compute and allocate; Ports, Buckets
--               and Create are proofs.
--   Transfer    ProcAuWriteElement and ProcAuReadElement of server/dia/audispatch.c; Pieces, Read,
--               Export and Write are proofs.
--   Compile     compileInputs and, in Outputs, AuCompileFlow of server/dia/auutil.c. Leaves has the
--               paths of a flow as plain lists; Places, Inputs, Shape, Renewal, Whole, Ends, Loops
--               and Again are proofs.
--   Process     AuProcessFlows of server/dia/auutil.c; Groups, Firsts, Joined and Rates are proofs.
--   Setup       AuSetupCompiledFlow and doSetup of server/dia/auprocess.c, where the routines for a
--               flow are chosen; Flags, Accumulate and Steps are proofs.
--   Events      the queue of audio events, server/dia/auevents.c: Order has the proofs on the queue,
--               Credit those on the bytes that an event tells of.
--   Cache       the cache of bucket attributes of the client library, lib/audio/bcache.c; Entries,
--               Servers, Refine and Traces are proofs, and Traces.promises is the abstract map.
--
-- How. A table of C pointers is a list of chains, a chain is the list of its nodes, and the server
-- is a record that each operation takes and returns. Allocations succeed or fail as an argument
-- says. FatalError, an access outside a buffer, and a read of broken frames are `none`; the string of
-- a component's description is all the memory that it has. Unsigned 32-bit sums wrap where
-- the source lets them; a 16-bit sample is its bit pattern. Loops over memory are structural
-- recursion on the count that the source counts down (rc_x on the frames wanted), or on the chain,
-- so no fuel is needed. Only the calls that AuChangeElementState makes of itself through actions, and
-- those that compileInputs makes of itself, take fuel, as their depth; the results on them say which
-- fuel is enough: a rank of the elements that falls along the inputs, in a flow without loops.
--
-- Not modelled: of the two files of server/dia that process flows, the components that AuCompileFlow
-- makes and the counts of references, waveforms, monitors and AuProcessFlow, and
-- so the part of AuChangeElementState that processes flows at its end where `processFlow` is set; the
-- operating system layer (server/os) but for the padding of WriteToClient and the size that Xalloc
-- refuses, the device drivers (server/dda), the protocol's dispatch but for ProcAuCreateBucket,
-- ProcAuWriteElement and ProcAuReadElement, and its byte swapping (server/dia/dispatch.c, audispatch.c,
-- auswap.c and others), the monitors' events, the configuration parser, the sound file readers and the
-- network code of lib/audio, and the clients, which are input and output or calls of other libraries.
pub mod Prelude
pub mod Resource
pub mod Sample
pub mod Stream
pub mod Mix
pub mod Play
pub mod Element
pub mod Attributes
pub mod Cache
pub mod Storage
pub mod Events
pub mod Transfer
pub mod Compile
pub mod Process
pub mod Setup
