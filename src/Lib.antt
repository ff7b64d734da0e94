-- ===== src/Lib.antt =====
-- A model of the wil6210 driver for 60 GHz network cards (directory
-- Wigig_release_2.0.2/work/wil6210; the paths below are relative to it).
--
-- The card and the host share rings of descriptors, a mailbox and interrupt registers. The card
-- raises an interrupt (interrupt.c); the hard handler masks the source and schedules polling, or
-- leaves its causes to a thread, which reads events from the mailbox (wmi.c). Polling reaps frames
-- (txrx.c) and hands each to the reorder buffer of its block-ack session (rx_reorder.c), which passes
-- it to the network stack in order.
--
-- Prelude    tests and arrays of C code, and the outcomes of a function that may not return: a
--            division by zero, a NULL pointer or a spent fuel are values.
-- Word       wil6210.h: bit fields, and the byte that holds a CID and a TID.
-- Skb        txrx.h: the Rx descriptor, and the fields decoded from it.
-- Reorder    rx_reorder.c: the reorder buffer of a block-ack session, one function of the model
--            for each function of the code (the prefix `wil_` left out). Window is the abstract
--            window of slots, Content the frames that it holds or gives
--            back; Inv has the conditions on a session, and Release, Store and Refine
--            relate the code to the window. Order is about the frames that leave the window,
--            Session about a session from its start to its end, and Limits about sizes that Inv
--            excludes.
-- Irq        interrupt.c: the registers that the handlers touch and the handlers (the prefix
--            `wil6210_` left out). Protocol has the hand-over between the two phases, Request the
--            interrupt lines.
--
-- Station    the table of stations: which session a frame belongs to (`wil_rx_reorder`), the
--            requests to open one (Back, `wil_back_worker` of rx_reorder.c), the search for an
--            address (`wil_find_cid` of main.c). Table has the conditions on the table, Rx is about
--            frames, Held about how many wait, Back/Worker about requests, Find about the search.
-- Link       main.c and txrx.c: connecting a station to a Tx ring and disconnecting it, and the
--            search for the ring of a frame. A ring that is freed keeps its CID, so that Rings is
--            about the order in which rings are taken; Connect is about the operations.
-- Rx         txrx.c and netdev.c: the Rx path, from the descriptor at the head of the ring through
--            the reorder buffer to the network stack. Radiotap is the header for monitor mode,
--            Ethaddr the exchange of addresses that the card got wrong, Reap and Pass are about one
--            frame, Poll about the loop and the poll around it.
-- Tx         txrx.c and netdev.c: Desc has the Tx descriptor, Send is `wil_tx_vring`, Tso is
--            `wil_tx_vring_tso`, Xmit is `wil_start_xmit`, Complete is `wil_tx_complete` and the
--            poll around it, Free is the end of a ring. Slots, Fill, Unmap and Ends lead to Sends,
--            which is about how a transmission ends; Holds, Pieces, Segment and Header lead to
--            Segments, which is about large segments; Scan, Clear and Release lead to Completes,
--            which is about the slots that are given back. Xmits is about a frame to one station.
-- Vring      txrx.c: the indices of a descriptor ring, and the refill of the Rx ring; Setup has its
--            start and its end (`wil_rx_init`, `wil_rx_fini`).
-- Roc        offchannel.c: requests to listen on a channel (the prefix `wil_` left out). Cycle has
--            their life.
-- Mbox       wil6210.h: the control block of the mailbox, and the entries of its rings.
-- Wmi        wmi.c: Addr translates addresses of the firmware, Send is `__wmi_send`, Recv is
--            `wmi_recv_cmd`, Events the dispatch of events and `wmi_call`. Delivery is about the
--            outcome of a send, Recv/Drain about the receive loop, Events/Replies about who gets
--            an event.
--
-- Dev        main.c and wil6210.h: the state of the device as main.c, the event handlers and
--            cfg80211.c see it, with a log of what the kernel is told and of the commands that are
--            sent. Disconnect is `_wil6210_disconnect`; Leaves has what it leaves of the stations
--            and rings, News what the stack is told, Disconnects is about the whole of it.
-- Evt        wmi.c and wmi.h: the events that the firmware sends, from their bytes. Handlers has the
--            short handlers, Station those about a station with `wil_connect_worker` of main.c,
--            Frames those that bring a frame, Dispatch the table of handlers and events in sequence.
--            Connects is about the connection of a station, News about what the stack is told of
--            it, Backs about sessions.
-- Cmd        wmi.c and wmi.h: the wrappers of commands (Mlme, Traffic) and the structures that they
--            fill (Structs). Sizes is about the bounds of these, Stored about reading back.
-- Main       main.c: reset, `wil_up` and `wil_down`; Init is `wil_priv_init` and its reverse, Memcpy
--            is `wil_memcpy_fromio_32`. Resets, Ups and Downs are about what they leave, Live about
--            when `wil_up` succeeds.
-- Cfg80211   cfg80211.c: the callbacks of the wireless stack. Scan, Connect, Info and Ap have scans,
--            connection, the state of stations and access points; Search has the commands of a P2P
--            search, Scans and Connections are about how these end.
--
-- State is passed explicitly: a function takes the record of what it reads and returns what it
-- leaves, with the calls that leave the component as a log. A lock makes the function it spans one
-- step. Integers of the code are natural numbers with their wrap-around written out.
--
-- Loops without a bound of their own run on fuel, for the rounds that they can take: 2049 for a
-- release up to a sequence number, which lies at most 2048 ahead where the loop runs; one more than
-- the slots for a release of what is stored; one more than the round
-- in which the mailbox ring has no more entries for the host; one more than the pending events or requests; the size of the ring
-- where a loop visits each slot at most once, and twice that for a large segment, where a payload
-- is completed at most once for each descriptor. What the card or the kernel decides (the values of
-- registers that change, allocations, DMA mappings, the time a call waits) is a parameter, one
-- value for each time the code asks.
--
-- A command wrapper, a reset and a callback take what the card answers to each command as a
-- parameter, which may depend on all commands sent so far; Wmi has how a send and a call come to
-- their result. What a pointer of the wireless stack stands for is a number.
--
-- Not modelled: events that are handled while a command wrapper waits for its reply, but for the
-- wait of a reset; the registration of the interface (cfg80211.c, netdev.c, pcie_bus.c), log and
-- trace output, cycle counters, debugfs and the tools, which format, print or call the kernel.
pub mod Cfg80211
pub mod Cmd
pub mod Dev
pub mod Evt
pub mod Irq
pub mod Link
pub mod Main
pub mod Mbox
pub mod Prelude
pub mod Reorder
pub mod Roc
pub mod Rx
pub mod Skb
pub mod Station
pub mod Tx
pub mod Vring
pub mod Wmi
pub mod Word
